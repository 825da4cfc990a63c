-- ===== src/Tunnel/Effect.antt =====
-- A method of `Tunnel` in xcesp_l2tpv3d/main.py: it changes the tunnel and what the tunnels share,
-- and returns or raises. What it changed before it raises stays changed.
use xcesp_l2tpv3d.Common.{List, [], ◌∷◌}
use xcesp_l2tpv3d.Exception.{Error, Result, ok, err}
use xcesp_l2tpv3d.Tunnel.{Shared, Tunnel}

abbrev pub State : Type 0 → Type 0
State S = Shared S × Tunnel

abbrev pub Method : Type 0 → Type 0 → Type 0
Method S A = State S → State S × Result A

module _ {S : Type 0} where
  abbrev pub pure : {A : Type 0} → A → Method S A
  pure a t = (t, ok a)

  abbrev pub raise : {A : Type 0} → Error → Method S A
  raise e t = (t, err e)

  abbrev pub lift : {A : Type 0} → Result A → Method S A
  lift r t = (t, r)

  abbrev pub gets : {A : Type 0} → (State S → A) → Method S A
  gets f t = (t, ok (f t))

  abbrev pub modify : (State S → State S) → Method S (Unit {0})
  modify f t = (f t, ok tt)

  abbrev pub and_then : {A B : Type 0} → State S × Result A → (A → Method S B) → State S × Result B
  and_then (t, ok a) k = k a t
  and_then (t, err e) k = (t, err e)

  infixl 5 ◌>>=◌ ◌>>◌
  unfoldable pub ◌>>=◌ : {A B : Type 0} → Method S A → (A → Method S B) → Method S B
  ◌>>=◌ m k t = and_then (m t) k

  abbrev pub ◌>>◌ : {A B : Type 0} → Method S A → Method S B → Method S B
  m >> k = m >>= λ done. k

  -- `for x in xs`
  unfoldable pub for_each : {A : Type 0} → (A → Method S (Unit {0})) → List A → Method S (Unit {0})
  for_each body [] = pure tt
  for_each body (x ∷ xs) = body x >> for_each body xs
