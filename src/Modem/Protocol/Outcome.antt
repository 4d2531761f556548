-- ===== src/Modem/Protocol/Outcome.antt =====
-- When a send counts as sent.
use green_relay.Prelude.{
  ℕ, ◌≡◌, refl, ap, ◌∙◌, sym, ◌≢◌, ◌↔◌, ◌⊎◌, inl, inr, List, [], ◌∷◌, ◌++◌, Option, some, none,
  arith, All,
}
use green_relay.Text.{Text}
use green_relay.Modem.Protocol.Line.{
  AtResult, LineClass, terminator, non_terminating, classify_line, parse_cmgs_reference,
  SendOutcome, sent_outcome, failed_outcome, close_outcome, scan_outcome, parse_send_outcome,
}

-- A line that ends nothing: it carries a reference, or it is no terminator.
abbrev pub IsQuiet : Text → Type 0
IsQuiet l = (parse_cmgs_reference l ≢ none) ⊎ (classify_line l ≡ non_terminating)

-- the last reference of the lines, or else the one before them
abbrev pub last_reference : Option ℕ → List Text → Option ℕ
last_reference r [] = r
last_reference r (l ∷ ls) = elim (parse_cmgs_reference l) [
  | some n ↦ last_reference (some n) ls
  | none ↦ last_reference r ls
]

-- Where the lines end: at the first line that is no quiet one, which is `OK`.
pub record IsConfirmed (start : Option ℕ) (lines : List Text) (r : ℕ) : Type 0 where
  pub before : List Text
  pub last : Text
  pub after : List Text
  pub splits : lines ≡ before ++ last ∷ after
  pub quiet : All IsQuiet before
  pub confirms : classify_line last ≡ terminator AtResult.ok
  pub no_reference : parse_cmgs_reference last ≡ none
  pub referenced : last_reference start before ≡ some r

data Line (l : Text) : Type 0 where
  reference : (n : ℕ) → parse_cmgs_reference l ≡ some n → Line l
  ends : (a : AtResult) → parse_cmgs_reference l ≡ none → classify_line l ≡ terminator a → Line l
  passes : parse_cmgs_reference l ≡ none → classify_line l ≡ non_terminating → Line l

Line-cases : (l : Text) → Line l
Line-cases l = go (parse_cmgs_reference l) (classify_line l) refl refl
  where
    go : (o : Option ℕ) (c : LineClass) → parse_cmgs_reference l ≡ o → classify_line l ≡ c → Line l
    go (some n) c p q = reference n p
    go none (terminator a) p q = ends a p q
    go none non_terminating p q = passes p q

scan_reference :
    (start : Option ℕ) (l : Text) (ls : List Text) (n : ℕ)
    → parse_cmgs_reference l ≡ some n
    → scan_outcome start (l ∷ ls) ≡ scan_outcome (some n) ls
unfolding scan_outcome
scan_reference start l ls n h = rw (h, scan_outcome)

scan_ends :
    (start : Option ℕ) (l : Text) (ls : List Text) (a : AtResult)
    → parse_cmgs_reference l ≡ none
    → classify_line l ≡ terminator a
    → scan_outcome start (l ∷ ls) ≡ close_outcome a start
unfolding scan_outcome
scan_ends start l ls a h k = rw (h, scan_outcome) (rw (k, scan_outcome))

scan_passes :
    (start : Option ℕ) (l : Text) (ls : List Text)
    → parse_cmgs_reference l ≡ none
    → classify_line l ≡ non_terminating
    → scan_outcome start (l ∷ ls) ≡ scan_outcome start ls
unfolding scan_outcome
scan_passes start l ls h k = rw (h, scan_outcome) (rw (k, scan_outcome))

last_reference-some :
    (start : Option ℕ) (l : Text) (ls : List Text) (n : ℕ)
    → parse_cmgs_reference l ≡ some n
    → last_reference start (l ∷ ls) ≡ last_reference (some n) ls
last_reference-some start l ls n h = rw (h, last_reference)

last_reference-none :
    (start : Option ℕ) (l : Text) (ls : List Text)
    → parse_cmgs_reference l ≡ none
    → last_reference start (l ∷ ls) ≡ last_reference start ls
last_reference-none start l ls h = rw (h, last_reference)

close_outcome-sent :
    (a : AtResult) (start : Option ℕ) {r : ℕ}
    → close_outcome a start ≡ sent_outcome r
    → (a ≡ AtResult.ok) × (start ≡ some r)
unfolding close_outcome
close_outcome-sent a start h = ground arith

IsConfirmed-cons :
    {start start' : Option ℕ} {l : Text} {ls : List Text} {r : ℕ}
    → IsQuiet l
    → ((b : List Text) → last_reference start (l ∷ b) ≡ last_reference start' b)
    → IsConfirmed start' ls r
    → IsConfirmed start (l ∷ ls) r
IsConfirmed-cons {l} q e c = record {
  before = l ∷ c.before;
  last = c.last;
  after = c.after;
  splits = ap (λ t. l ∷ t) c.splits;
  quiet = (q, c.quiet);
  confirms = c.confirms;
  no_reference = c.no_reference;
  referenced = e c.before ∙ c.referenced;
}

scan-IsConfirmed :
    (lines : List Text) (start : Option ℕ) {r : ℕ}
    → scan_outcome start lines ≡ sent_outcome r
    → IsConfirmed start lines r
scan-IsConfirmed [] start h = absurd (nothing_sent h)
  where
    nothing_sent : {r : ℕ} → scan_outcome start [] ≡ sent_outcome r → ⊥
    nothing_sent k = unfold scan_outcome in cc
scan-IsConfirmed (l ∷ ls) start {r} h = elim (Line-cases l) [
  | reference n p ↦
      IsConfirmed-cons (inl (λ e. cc)) (λ b. last_reference-some start l b n p)
        (scan-IsConfirmed ls (some n) (sym (scan_reference start l ls n p) ∙ h))
  | passes p q ↦
      IsConfirmed-cons (inr q) (λ b. last_reference-none start l b p)
        (scan-IsConfirmed ls start (sym (scan_passes start l ls p q) ∙ h))
  | ends a p q ↦
      let (done, known) = close_outcome-sent a start (sym (scan_ends start l ls a p q) ∙ h) in
      record {
        before = [];
        last = l;
        after = ls;
        splits = refl;
        quiet = tt;
        confirms = rw done at q;
        no_reference = p;
        referenced = known;
      }
]

scan-before :
    (before : List Text) (start : Option ℕ) (last : Text) (after : List Text) {r : ℕ}
    → All IsQuiet before
    → classify_line last ≡ terminator AtResult.ok
    → parse_cmgs_reference last ≡ none
    → last_reference start before ≡ some r
    → scan_outcome start (before ++ last ∷ after) ≡ sent_outcome r
scan-before [] start last after q c n e =
    scan_ends start last after AtResult.ok n c ∙ rw e (unfold close_outcome in refl)
scan-before (l ∷ before) start last after q c n e = elim (Line-cases l) [
  | reference m p ↦
      scan_reference start l (before ++ last ∷ after) m p
      ∙ scan-before before (some m) last after q.1 c n
          (sym (last_reference-some start l before m p) ∙ e)
  | passes p s ↦
      scan_passes start l (before ++ last ∷ after) p s
      ∙ scan-before before start last after q.1 c n (sym (last_reference-none start l before p) ∙ e)
  | ends a p s ↦ absurd (loud q.0 p s)
]
  where
    loud :
        {a : AtResult}
        → IsQuiet l
        → parse_cmgs_reference l ≡ none
        → classify_line l ≡ terminator a
        → ⊥
    loud (inl k) p s = k p
    loud (inr k) p s = cc

-- A send is sent with reference r exactly if the response reaches an OK line before any error line
-- and the last +CMGS reference before that line is r.
pub parse_send_outcome_iff :
    (lines : List Text) (r : ℕ)
    → (parse_send_outcome lines ≡ sent_outcome r) ↔ IsConfirmed none lines r
unfolding parse_send_outcome
parse_send_outcome_iff lines r = (
  scan-IsConfirmed lines none,
  λ c.
      rw c.splits
        (scan-before c.before none c.last c.after c.quiet c.confirms c.no_reference c.referenced),
)

-- An outcome is one of two: sent with a reference and no error code, or failed with no reference.
abbrev pub IsOutcome : SendOutcome → Type 0
IsOutcome o = ((r : ℕ) × (o ≡ sent_outcome r)) ⊎ ((c : Option ℕ) × (o ≡ failed_outcome c))

close_outcome-IsOutcome : (a : AtResult) (start : Option ℕ) → IsOutcome (close_outcome a start)
unfolding close_outcome
close_outcome-IsOutcome AtResult.ok (some r) = inl (r, refl)
close_outcome-IsOutcome AtResult.ok none = inr (none, refl)
close_outcome-IsOutcome (AtResult.cms_error code) s = inr (some code, refl)
close_outcome-IsOutcome (AtResult.cme_error code) s = inr (some code, refl)
close_outcome-IsOutcome AtResult.error s = inr (none, refl)
close_outcome-IsOutcome AtResult.timeout s = inr (none, refl)

pub scan-IsOutcome : (lines : List Text) (start : Option ℕ) → IsOutcome (scan_outcome start lines)
scan-IsOutcome [] start = inr (none, unfold scan_outcome in refl)
scan-IsOutcome (l ∷ ls) start = elim (Line-cases l) [
  | reference n p ↦ rw (scan_reference start l ls n p) (scan-IsOutcome ls (some n))
  | passes p q ↦ rw (scan_passes start l ls p q) (scan-IsOutcome ls start)
  | ends a p q ↦ rw (scan_ends start l ls a p q) (close_outcome-IsOutcome a start)
]

-- Every outcome of a send is sent with a reference and no error code, or failed with no reference;
-- none is queued.
pub parse_send_outcome-IsOutcome : (lines : List Text) → IsOutcome (parse_send_outcome lines)
unfolding parse_send_outcome
parse_send_outcome-IsOutcome lines = scan-IsOutcome lines none
