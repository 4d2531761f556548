-- ===== src/Modem/Transport/Laws.antt =====
-- service/src/modem/transport.rs: what the submission of one part writes to the port.
use mathlib.Core.List.{append_assoc, append-nil}
use mathlib.Core.Path.{subst}
use green_relay.Prelude.{
  ℕ, ◌≡◌, refl, sym, ap, ◌∙◌, ◌⊎◌, inl, inr, Bool, true, false, List, [], ◌∷◌, ◌++◌, Result, length,
  Bool-cases,
}
use green_relay.Text.{Text, codes}
use green_relay.Sms.Alphabet.{SmsEncoding}
use green_relay.Sms.Frame.{build_cmgs_header, build_cmgs_body}
use green_relay.Modem.Protocol.Line.{AtResult, timeout, AtExchange, sms_abort}
use green_relay.Modem.Transport.Readings.{
  Waits, Collects, collected_only, prompt_in-Waits, collect_in-Collects,
}
use green_relay.Modem.Io.{Reading, IoError, port_lost, World, Io, log_write, write_bytes}
use green_relay.Modem.Transport.{
  prompt_in, collect_in, wait_for_prompt, collect_until_terminator, abort_to_command_mode,
  is_timeout, revert_after, after_prompt, send_sms_part,
}

abbrev pub escape : List ℕ
escape = sms_abort ∷ []

abbrev pub result_only : Result AtExchange IoError → Result AtResult IoError
result_only (Result.ok ex) = Result.ok ex.result
result_only (Result.err e) = Result.err e

-- What is written for a part, with the header and the body, given what the port will read, and how
-- that ends. The body is written once the prompt has come and only then; the command is taken back
-- when it does not come, or when no result comes after the body. A port that is lost ends it at once.
pub data Submission (header body : List ℕ) (readings : List Reading)
    : List (List ℕ) → Result AtResult IoError → Type 0 where
  no_prompt :
      (rest : List Reading)
      → Waits readings (Result.ok false) rest
      → Submission header body readings (header ∷ escape ∷ []) (Result.ok timeout)
  answered :
      (rest rest' : List Reading) (r : AtResult)
      → Waits readings (Result.ok true) rest
      → Collects rest (Result.ok r) rest'
      → is_timeout r ≡ false
      → Submission header body readings (header ∷ body ∷ []) (Result.ok r)
  taken_back :
      (rest rest' : List Reading)
      → Waits readings (Result.ok true) rest
      → Collects rest (Result.ok timeout) rest'
      → Submission header body readings (header ∷ body ∷ escape ∷ []) (Result.ok timeout)
  lost_at_once : Submission header body readings [] (Result.err port_lost)
  lost_waiting : Submission header body readings (header ∷ []) (Result.err port_lost)
  lost_reverting :
      (rest : List Reading)
      → Waits readings (Result.ok false) rest
      → Submission header body readings (header ∷ escape ∷ []) (Result.err port_lost)
  lost_collecting :
      (rest : List Reading)
      → Waits readings (Result.ok true) rest
      → Submission header body readings (header ∷ body ∷ []) (Result.err port_lost)
  lost_taking_back :
      (rest rest' : List Reading)
      → Waits readings (Result.ok true) rest
      → Collects rest (Result.ok timeout) rest'
      → Submission header body readings (header ∷ body ∷ escape ∷ []) (Result.err port_lost)

pub Result-cases :
    {A : Type 0} (r : Result A IoError) → ((a : A) × (r ≡ Result.ok a)) ⊎ (r ≡ Result.err port_lost)
Result-cases (Result.ok a) = inl (a, refl)
Result-cases (Result.err port_lost) = inr refl

is_timeout-timeout : (r : AtResult) → is_timeout r ≡ true → r ≡ timeout
is_timeout-timeout timeout h = refl
is_timeout-timeout AtResult.ok h = cc
is_timeout-timeout AtResult.error h = cc
is_timeout-timeout (AtResult.cms_error c) h = cc
is_timeout-timeout (AtResult.cme_error c) h = cc

log_two : (s : List (List ℕ)) (a b : List ℕ) → (s ++ a ∷ []) ++ b ∷ [] ≡ s ++ a ∷ b ∷ []
log_two s a b = append_assoc s (a ∷ []) (b ∷ [])

log_three : (s : List (List ℕ)) (a b c : List ℕ) → (s ++ a ∷ b ∷ []) ++ c ∷ [] ≡ s ++ a ∷ b ∷ c ∷ []
log_three s a b c = append_assoc s (a ∷ b ∷ []) (c ∷ [])

module _ {R : Type 0} where
  abbrev pub Fails : {A : Type 0} → Io R A → World R → World R → Type 0
  Fails m w w' = m w ≡ (w', Result.err port_lost)

  abbrev pub Gives : {A : Type 0} → Io R A → World R → World R → A → Type 0
  Gives m w w' a = m w ≡ (w', Result.ok a)

  pub write_cases :
      (bytes : List ℕ) (w : World R)
      → Fails (write_bytes bytes) w w ⊎ Gives (write_bytes bytes) w (log_write w bytes) tt
  unfolding write_bytes
  write_cases bytes w = elim (Bool-cases (w.write_fails (length w.log))) [
    | inl fails ↦ inl (rw fails refl)
    | inr works ↦ inr (rw works refl)
  ]

  pub collect_cases :
      (cmd : Text) (w : World R)
      → (w' : World R) × (w'.log ≡ w.log)
        × (Fails (collect_until_terminator cmd) w w'
            ⊎ ((ex : AtExchange) × Gives (collect_until_terminator cmd) w w' ex
                × Collects w.readings (Result.ok ex.result) w'.readings))
  unfolding collect_until_terminator
  collect_cases cmd w = elim (Result-cases (collect_in [] w.readings).1) [
    | inl c ↦ (
      record w { readings = (collect_in [] w.readings).0 },
      refl,
      inr (
        record { command = cmd; lines = c.0.0; result = c.0.1 },
        rw c.1 refl,
        subst (λ r. Collects w.readings (collected_only r) (collect_in [] w.readings).0) c.1
            (collect_in-Collects [] w.readings),
      ),
    )
    | inr e ↦ (record w { readings = (collect_in [] w.readings).0 }, refl, inl (rw e refl))
  ]

  prompt_cases :
      (w : World R)
      → (w' : World R) × (w'.log ≡ w.log)
        × (Fails wait_for_prompt w w'
            ⊎ ((b : Bool) × Gives wait_for_prompt w w' b
                × Waits w.readings (Result.ok b) w'.readings))
  unfolding wait_for_prompt
  prompt_cases w = elim (Result-cases (prompt_in w.readings).1) [
    | inl c ↦ (
      record w { readings = (prompt_in w.readings).0 },
      refl,
      inr (
        c.0,
        rw c.1 refl,
        subst (λ r. Waits w.readings r (prompt_in w.readings).0) c.1 (prompt_in-Waits w.readings),
      ),
    )
    | inr e ↦ (record w { readings = (prompt_in w.readings).0 }, refl, inl (rw e refl))
  ]

  -- the log grows by nothing, or by the escape, and then the port is lost or the abort is done
  abort_cases :
      (w : World R)
      → (w' : World R) × ((Fails abort_to_command_mode w w' × (w'.log ≡ w.log))
          ⊎ ((Fails abort_to_command_mode w w' × (w'.log ≡ w.log ++ escape ∷ []))
              ⊎ (Gives abort_to_command_mode w w' tt × (w'.log ≡ w.log ++ escape ∷ []))))
  unfolding abort_to_command_mode
  abort_cases w = elim (write_cases escape w) [
    | inl fails ↦ (w, inl (rw fails refl, refl))
    | inr written ↦
        let c = collect_cases (codes "ESC") (log_write w escape) in
        (
          c.0,
          inr (elim c.2 [
            | inl lost ↦ inl (rw (written, lost) refl, c.1)
            | inr ex ↦ inr (rw (written, ex.1) refl, c.1)
          ]),
        )
  ]

  -- the writes of a submission and its result
  abbrev pub Submits :
      Text → Text → SmsEncoding → World R → World R × Result AtExchange IoError → Type 0
  Submits to body encoding w out =
      (writes : List (List ℕ)) × (out.0.log ≡ w.log ++ writes)
      × Submission (build_cmgs_header to encoding) (build_cmgs_body body encoding) w.readings writes
          (result_only out.1)

  module _ (to body : Text) (encoding : SmsEncoding) (w : World R) where
    abbrev head : List ℕ
    head = build_cmgs_header to encoding

    abbrev rest : List ℕ
    rest = build_cmgs_body body encoding

    -- after the header, with no prompt
    no_prompt_lem :
        (v : World R)
        → v.log ≡ w.log ++ head ∷ []
        → Waits w.readings (Result.ok false) v.readings
        → Submits to body encoding w (after_prompt body encoding false v)
    unfolding after_prompt
    no_prompt_lem v e unprompted =
        let a = abort_cases v in
        elim a.1 [
          | inl quiet ↦ rw quiet.0 (head ∷ [], quiet.1 ∙ e, lost_waiting)
          | inr (inl broken) ↦ rw broken.0 (
            head ∷ escape ∷ [],
            broken.1 ∙ ap (λ l. l ++ escape ∷ []) e ∙ log_two w.log head escape,
            lost_reverting v.readings unprompted,
          )
          | inr (inr done) ↦ rw done.0 (
            head ∷ escape ∷ [],
            done.1 ∙ ap (λ l. l ++ escape ∷ []) e ∙ log_two w.log head escape,
            no_prompt v.readings unprompted,
          )
        ]

    revert_lem :
        (v : World R) (ex : AtExchange)
        → v.log ≡ w.log ++ head ∷ rest ∷ []
        → (after : List Reading) → Waits w.readings (Result.ok true) after
        → Collects after (Result.ok ex.result) v.readings
        → Submits to body encoding w (revert_after ex v)
    unfolding revert_after
    revert_lem v ex e after asked got = elim (Bool-cases (is_timeout ex.result)) [
      | inr result ↦
          rw result (head ∷ rest ∷ [], e, answered after v.readings ex.result asked got result)
      | inl late ↦
          let a = abort_cases v in
          let got' : Collects after (Result.ok timeout) v.readings =
            subst (λ r. Collects after (Result.ok r) v.readings) (is_timeout-timeout ex.result late)
              got in
          let grown = ap (λ l. l ++ escape ∷ []) e ∙ log_three w.log head rest escape in
          rw late (elim a.1 [
            | inl quiet ↦ rw quiet.0 (head ∷ rest ∷ [], quiet.1 ∙ e, lost_collecting after asked)
            | inr (inl broken) ↦ rw broken.0 (
              head ∷ rest ∷ escape ∷ [],
              broken.1 ∙ grown,
              lost_taking_back after v.readings asked got',
            )
            | inr (inr done) ↦
                rw (done.0, is_timeout-timeout ex.result late)
                  (
                    head ∷ rest ∷ escape ∷ [],
                    done.1 ∙ grown,
                    taken_back after v.readings asked got',
                  )
          ])
    ]

    prompt_lem :
        (v : World R)
        → v.log ≡ w.log ++ head ∷ []
        → Waits w.readings (Result.ok true) v.readings
        → Submits to body encoding w (after_prompt body encoding true v)
    unfolding after_prompt
    prompt_lem v e asked = elim (write_cases rest v) [
      | inl fails ↦ rw fails (head ∷ [], e, lost_waiting)
      | inr written ↦
          let c = collect_cases (codes "AT+CMGS") (log_write v rest) in
          let grown = c.1 ∙ ap (λ l. l ++ rest ∷ []) e ∙ log_two w.log head rest in
          elim c.2 [
            | inl lost ↦
                rw (written, lost) (head ∷ rest ∷ [], grown, lost_collecting v.readings asked)
            | inr ex ↦ rw (written, ex.1) (revert_lem c.0 ex.0 grown v.readings asked ex.2)
          ]
    ]

    after_prompt_lem :
        (v : World R) (b : Bool)
        → v.log ≡ w.log ++ head ∷ []
        → Waits w.readings (Result.ok b) v.readings
        → Submits to body encoding w (after_prompt body encoding b v)
    after_prompt_lem v true e h = prompt_lem v e h
    after_prompt_lem v false e h = no_prompt_lem v e h

    pub send_sms_part-Submits : Submits to body encoding w (send_sms_part to body encoding w)
    unfolding send_sms_part
    send_sms_part-Submits = elim (write_cases head w) [
      | inl fails ↦ rw fails ([], sym (append-nil w.log), lost_at_once)
      | inr written ↦
          let p = prompt_cases (log_write w head) in
          elim p.2 [
            | inl lost ↦ rw (written, lost) (head ∷ [], p.1, lost_waiting)
            | inr b ↦ rw (written, b.1) (after_prompt_lem p.0 b.0 p.1 b.2)
          ]
    ]
