-- ===== src/ReorderBuffer.antt =====
-- The reorder buffer `_reorder` of xcesp_l2tpv3d/transport.py: a `dict` from an Ns to a message.
use xcesp_l2tpv3d.Common.{is_some, true, ℕ, suc, ◌≡◌, ◌≢◌, refl, arith, Option, none, some}
use xcesp_l2tpv3d.Common.{List, [], ◌∷◌, length, ◌==◌, if◌then◌else◌}
use xcesp_l2tpv3d.Message.{ControlMessage}

abbrev pub Reorder : Type 0
Reorder = List (ℕ × ControlMessage)

-- `ns in self._reorder` and `self._reorder[ns]`
unfoldable pub get : ℕ → Reorder → Option ControlMessage
get ns [] = none
get ns ((k, m) ∷ entries) = if k == ns then some m else get ns entries

-- `self._reorder[ns] = msg`
unfoldable pub insert : ℕ → ControlMessage → Reorder → Reorder
insert ns msg [] = (ns, msg) ∷ []
insert ns msg ((k, m) ∷ entries) =
    if k == ns then (k, msg) ∷ entries else (k, m) ∷ insert ns msg entries

-- `self._reorder.pop(ns)`
unfoldable pub remove : ℕ → Reorder → Reorder
remove ns [] = []
remove ns ((k, m) ∷ entries) = if k == ns then entries else (k, m) ∷ remove ns entries

-- Every key is in it once, as in a `dict`.
abbrev pub IsDict : Reorder → Type 0
IsDict [] = Unit
IsDict ((k, m) ∷ entries) = (get k entries ≡ none) × IsDict entries

pub length-remove :
    (ns : ℕ) (r : Reorder) {m : ControlMessage}
    → get ns r ≡ some m
    → suc (length (remove ns r)) ≡ length r
unfolding get remove
length-remove ns [] h = absurd (ground arith)
length-remove ns ((k, n) ∷ r) {m} h = ground (arith, length-remove ns r {m = m})

pub get-insert : (ns : ℕ) (m : ControlMessage) (r : Reorder) → get ns (insert ns m r) ≡ some m
unfolding get insert
get-insert ns m [] = ground arith
get-insert ns m ((k, n) ∷ r) = ground (arith, get-insert ns m r)

pub get-insert_ne :
    (i ns : ℕ) (m : ControlMessage) (r : Reorder) → i ≢ ns → get i (insert ns m r) ≡ get i r
unfolding get insert
get-insert_ne i ns m [] h = ground arith
get-insert_ne i ns m ((k, n) ∷ r) h = ground (arith, get-insert_ne i ns m r)

pub get-insert_some :
    (i ns : ℕ) (m : ControlMessage) (r : Reorder)
    → is_some (get i r) ≡ true
    → is_some (get i (insert ns m r)) ≡ true
unfolding get insert
get-insert_some i ns m [] h = absurd (ground arith)
get-insert_some i ns m ((k, n) ∷ r) h = ground (arith, get-insert_some i ns m r)

pub get-remove_ne : (i ns : ℕ) (r : Reorder) → i ≢ ns → get i (remove ns r) ≡ get i r
unfolding get remove
get-remove_ne i ns [] h = refl
get-remove_ne i ns ((k, n) ∷ r) h = ground (arith, get-remove_ne i ns r)

pub get-remove : (ns : ℕ) (r : Reorder) → IsDict r → get ns (remove ns r) ≡ none
unfolding get remove
get-remove ns [] d = refl
get-remove ns ((k, n) ∷ r) d = ground (arith, get-remove ns r)

pub insert-IsDict : (ns : ℕ) (m : ControlMessage) (r : Reorder) → IsDict r → IsDict (insert ns m r)
unfolding get insert
insert-IsDict ns m [] d = (refl, tt)
insert-IsDict ns m ((k, n) ∷ r) d = ground (arith, insert-IsDict ns m r d.1, get-insert_ne k ns m r)

pub remove-IsDict : (ns : ℕ) (r : Reorder) → IsDict r → IsDict (remove ns r)
unfolding get remove
remove-IsDict ns [] d = tt
remove-IsDict ns ((k, n) ∷ r) d = ground (arith, remove-IsDict ns r d.1, get-remove_ne k ns r)
