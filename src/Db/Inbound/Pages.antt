-- ===== src/Db/Inbound/Pages.antt =====
-- service/src/db.rs: the pages of `list_inbound_messages`.
use green_relay.Prelude.{
  ℕ, zero, suc, ◌+◌, ◌≡◌, refl, ap, sym, ◌∙◌, arith, List, [], ◌∷◌, ◌++◌, take, drop,
}
use green_relay.Models.{Rfc3339}
use green_relay.Db.{InboundRow}
use green_relay.Db.Rows.{order_by}
use green_relay.Db.Inbound.{newer, page}

abbrev suc_add : (n m : ℕ) → suc n + m ≡ suc (n + m)
suc_add n m = omega arith

module _ {R : Type 0} where
  take-take-drop : (n m : ℕ) (rs : List R) → take n rs ++ take m (drop n rs) ≡ take (n + m) rs
  take-take-drop zero m rs = ap (λ k. take k rs) (omega arith)
  take-take-drop (suc n) zero [] = rw (suc_add n 0) refl
  take-take-drop (suc n) (suc m) [] = rw (suc_add n (suc m)) refl
  take-take-drop (suc n) m (r ∷ rs) = rw (suc_add n m) (ap (λ q. r ∷ q) (take-take-drop n m rs))

  drop-drop : (n m : ℕ) (rs : List R) → drop m (drop n rs) ≡ drop (n + m) rs
  drop-drop zero m rs = ap (λ k. drop k rs) (omega arith)
  drop-drop (suc n) zero [] = rw (suc_add n 0) refl
  drop-drop (suc n) (suc m) [] = rw (suc_add n (suc m)) refl
  drop-drop (suc n) m (r ∷ rs) = rw (suc_add n m) (drop-drop n m rs)

page-page :
    (chrono : Rfc3339) (offset l m : ℕ) (rows : List InboundRow)
    → page chrono l offset rows ++ page chrono m (offset + l) rows ≡ page chrono (l + m) offset rows
unfolding page
page-page chrono offset l m rows =
    ap (λ q. take l (drop offset (order_by newer rows)) ++ take m q)
      (sym (drop-drop offset l (order_by newer rows)))
    ∙ take-take-drop l m (drop offset (order_by newer rows))
