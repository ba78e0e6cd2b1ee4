-- ===== src/Auth/Registration/Twice.antt =====
-- A statement that is answered twice.
use testing_platform_backend.Auth.Accounts.{has_email}
use testing_platform_backend.Auth.Consents.{
  Statement, StatementAnswer, StatementResponse, active_acceptance_statements, answers, consents,
}
use testing_platform_backend.Auth.Login.{Vault}
use testing_platform_backend.Auth.Registration.{
  Platform, Provisioning, RegistrationSubmission, Signing, add_receipts, integrity_error,
  is_id_taken, is_owner_taken, is_receipt, provision, receipt, register, signing, wrapped_at,
}
use testing_platform_backend.Core.Crypto.{WrappedKey}
use testing_platform_backend.Prelude.{
  ==_refl, Bool, Bool-cases, List, Option-cases, [], any, arith, count, err, false, find, inl, inr,
  none, ok, refl, some, suc, sym, true, ℕ, ◌&&◌, ◌++◌, ◌+◌, ◌∙◌, ◌∷◌, ◌≡◌, ◌≤◌,
}
use testing_platform_backend.Text.{lower, text_eq}
use testing_platform_backend.Text.Laws.{text_eq_iff}

-- The second answer names the statement of the first.
abbrev pub same_answer : StatementAnswer → StatementAnswer → Bool
same_answer a b =
    text_eq b.answered_key a.answered_key && text_eq b.answered_version a.answered_version

pub same_found :
    (a b : StatementAnswer) (required : List Statement)
    → same_answer a b ≡ true
    → find (answers b) required ≡ find (answers a) required
same_found a b required h =
    let key : b.answered_key ≡ a.answered_key =
      (text_eq_iff b.answered_key a.answered_key).0 (ground arith) in
    let version : b.answered_version ≡ a.answered_version =
      (text_eq_iff b.answered_version a.answered_version).0 (ground arith) in
    rw (key, version) refl

any-append :
    {A : Type 0} (q : A → Bool) (xs ys : List A) → any q xs ≡ true → any q (xs ++ ys) ≡ true
any-append q [] ys h = cc
any-append q (x ∷ xs) ys h = elim (Bool-cases (q x)) [
  | inl y ↦ rw y refl
  | inr n ↦ rw n (any-append q xs ys (rw n at h))
]

any-append_last :
    {A : Type 0} (q : A → Bool) (xs : List A) (y : A) → q y ≡ true → any q (xs ++ (y ∷ [])) ≡ true
any-append_last q [] y h = rw h refl
any-append_last q (x ∷ xs) y h = elim (Bool-cases (q x)) [
  | inl z ↦ rw z refl
  | inr n ↦ rw n (any-append_last q xs y h)
]

any-count : {A : Type 0} (q : A → Bool) (xs : List A) → 1 ≤ count q xs → any q xs ≡ true
any-count q [] h = absurd (omega arith)
any-count q (x ∷ xs) h = elim (Bool-cases (q x)) [
  | inl y ↦ rw y refl
  | inr n ↦ rw n (any-count q xs (rw n at h))
]

module _ (v : Vault) (x : Provisioning) where
  add_receipts_refused :
      (g : Signing) (draw : ℕ) (required : List Statement) (given : List StatementAnswer)
      (rows : List StatementResponse) (a : StatementAnswer) (s : Statement)
      → find (answers a) required ≡ some s
      → any (is_receipt s.id g.envelope_id) rows ≡ true
      → any (same_answer a) given ≡ true
      → add_receipts v x g draw required given rows ≡ none
  unfolding add_receipts
  add_receipts_refused g draw required [] rows a s f r h = cc
  add_receipts_refused g draw required (b ∷ given) rows a s f r h =
      elim (Bool-cases (same_answer a b)) [
        | inl y ↦ rw (add_receipts, same_found a b required y, f, r) refl
        | inr n ↦ elim (Option-cases (find (answers b) required)) [
          | inl m ↦ rw (add_receipts, m) refl
          | inr (t, e) ↦ elim (Bool-cases (any (is_receipt t.id g.envelope_id) rows)) [
            | inl z ↦ rw (add_receipts, e, z) refl
            | inr z ↦
                rw (add_receipts, e, z)
                  (add_receipts_refused g (draw + 2) required given
                    (rows ++ (receipt v x g draw t ∷ [])) a s f
                    (any-append (is_receipt s.id g.envelope_id) rows _ r) (rw n at h))
          ]
        ]
      ]

  add_receipts_twice :
      (g : Signing) (draw : ℕ) (required : List Statement) (given : List StatementAnswer)
      (rows : List StatementResponse) (a : StatementAnswer)
      → 2 ≤ count (same_answer a) given
      → add_receipts v x g draw required given rows ≡ none
  unfolding add_receipts
  add_receipts_twice g draw required [] rows a h = absurd (omega arith)
  add_receipts_twice g draw required (b ∷ given) rows a h =
      elim (Option-cases (find (answers b) required)) [
        | inl m ↦ rw (add_receipts, m) refl
        | inr (t, e) ↦ elim (Bool-cases (any (is_receipt t.id g.envelope_id) rows)) [
          | inl z ↦ rw (add_receipts, e, z) refl
          | inr z ↦ elim (Bool-cases (same_answer a b)) [
            | inl y ↦
                let more : 2 ≤ suc (count (same_answer a) given) = rw y at h in
                rw (add_receipts, e, z)
                  (add_receipts_refused g (draw + 2) required given
                    (rows ++ (receipt v x g draw t ∷ [])) a t (sym (same_found a b required y) ∙ e)
                    (any-append_last (is_receipt t.id g.envelope_id) rows (receipt v x g draw t)
                      (rw (==_refl t.id, ==_refl g.envelope_id) refl))
                    (any-count (same_answer a) given (omega (arith, more))))
            | inr n ↦
                rw (add_receipts, e, z)
                  (add_receipts_twice g (draw + 2) required given
                    (rows ++ (receipt v x g draw t ∷ [])) a (rw n at h))
          ]
        ]
      ]

  -- A submission that passes the check of consent, for an address that has no account, with keys
  -- that are wrapped and ids that are free, but that answers some statement twice, ends with the
  -- error of the unique index, which nothing handles, and nothing is written.
  pub register_twice :
      (now : ℕ) (submission : RegistrationSubmission) (db : Platform) (ow uw : WrappedKey)
      (a : StatementAnswer)
      → consents (active_acceptance_statements now db.statements) submission.statement_responses
        ≡ true
      → wrapped_at v x db.accounts.auth.drawn db.accounts.auth.drawn ≡ ok ow
      → wrapped_at v x (db.accounts.auth.drawn + 1) (db.accounts.auth.drawn + 1) ≡ ok uw
      → any (has_email (lower submission.email)) db.accounts.users ≡ false
      → is_id_taken v x
          (x.uuid_at db.accounts.auth.drawn)
          (x.uuid_at (db.accounts.auth.drawn + 1))
          db
        ≡ false
      → is_owner_taken v x
          (x.uuid_at db.accounts.auth.drawn)
          (x.uuid_at (db.accounts.auth.drawn + 1))
          db
        ≡ false
      → 2 ≤ count (same_answer a) submission.statement_responses
      → register v x now submission db ≡ (err integrity_error, db)
  unfolding register provision
  register_twice now submission db ow uw a c o w f i k twice =
      rw
        (
          register,
          c,
          o,
          w,
          provision,
          i,
          f,
          k,
          add_receipts_twice (signing v x now submission db) (db.accounts.auth.drawn + 4)
              (active_acceptance_statements now db.statements) submission.statement_responses
              db.responses a twice,
        )
        refl
