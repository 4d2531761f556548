-- ===== src/Modem/Protocol/Inbound/Fields.antt =====
-- Splitting a header into fields loses nothing, and keeps quoted commas.
use mathlib.Core.List.{append_assoc, append-nil}
use green_relay.Prelude.{◌≡◌, ◌≢◌, sym, ap, true, false, not, Bool, [], ◌∷◌, ◌++◌, count, arith}
use green_relay.Text.{Text}
use green_relay.Text.Split.{join_with, join_with-cons}
use green_relay.Modem.Protocol.Inbound.{csv_onto, split_quoted_csv}

csv_onto-ne-nil : (cur : Text) (q : Bool) (s : Text) → csv_onto cur q s ≢ []
unfolding csv_onto
csv_onto-ne-nil cur q [] = cc
csv_onto-ne-nil cur q (c ∷ s) =
    ground (arith, csv_onto-ne-nil (cur ++ c ∷ []) (not q) s, csv_onto-ne-nil (cur ++ c ∷ []) q s)

join-csv_onto : (cur : Text) (q : Bool) (s : Text) → join_with b',' (csv_onto cur q s) ≡ cur ++ s
unfolding csv_onto
join-csv_onto cur q [] = unfold join_with in sym (append-nil cur)
join-csv_onto cur q (c ∷ s) = ground (
  arith,
  join_with-cons b',' cur (csv_onto [] q s) (csv_onto-ne-nil [] q s),
  join-csv_onto [] q s,
  join-csv_onto (cur ++ c ∷ []) q s,
  join-csv_onto (cur ++ c ∷ []) (not q) s,
  append_assoc cur (c ∷ []) s,
)

-- The fields of a header, joined by commas, are the header again, quotation marks included.
pub join-split_quoted_csv : (s : Text) → join_with b',' (split_quoted_csv s) ≡ s
unfolding split_quoted_csv
join-split_quoted_csv s = join-csv_onto [] false s

-- Inside quotation marks a text without any is one piece, commas and all.
pub csv_onto_quoted :
    (cur u s : Text) → count b'"' u ≡ 0 → csv_onto cur true (u ++ s) ≡ csv_onto (cur ++ u) true s
unfolding csv_onto
csv_onto_quoted cur [] s h = ap (λ t. csv_onto t true s) (sym (append-nil cur))
csv_onto_quoted cur (c ∷ u) s h =
    ground (arith, csv_onto_quoted (cur ++ c ∷ []) u s, append_assoc cur (c ∷ []) u)
