-- ===== src/Auth/Registration/Signed.antt =====
-- The loop of `register` that writes the receipts: each answer gets one.
use testing_platform_backend.Auth.Consents.{
  Statement, StatementAnswer, StatementResponse, answers, has_answer,
}
use testing_platform_backend.Auth.Login.{Vault}
use testing_platform_backend.Auth.Login.Rotation.{VaultLaws}
use testing_platform_backend.Auth.Registration.{
  Provisioning, Signing, add_receipts, dek_aad, evidence_aad, is_receipt, receipt,
}
use testing_platform_backend.Auth.Registration.Twice.{same_answer, same_found}
use testing_platform_backend.Core.Crypto.{decrypt}
use testing_platform_backend.Core.Crypto.Opening.{decrypt-encrypt_own}
use testing_platform_backend.Prelude.{
  Bool-cases, List, Option, Option-cases, Some, [], any, arith, find, inl, inr, none, ok, refl,
  some, some-equal, subst, sym, true, ℕ, ◌++◌, ◌+◌, ◌∙◌, ◌∷◌, ◌≡◌,
}
use testing_platform_backend.Text.Laws.{text_eq_comm}

-- the answer that a statement asks for
abbrev pub answer_to : Statement → StatementAnswer
answer_to s = record { answered_key = s.statement_key; answered_version = s.version }

pub answered_same :
    (s : Statement) (given : List StatementAnswer)
    → has_answer given s ≡ true
    → any (same_answer (answer_to s)) given ≡ true
answered_same s [] h = cc
answered_same s (b ∷ given) h = elim (Bool-cases (answers b s)) [
  | inl y ↦
      let same : same_answer (answer_to s) b ≡ true =
        rw (text_eq_comm b.answered_key s.statement_key, text_eq_comm b.answered_version s.version)
          y in
      rw same refl
  | inr n ↦
      let rest : any (same_answer (answer_to s)) given ≡ true = answered_same s given (rw n at h) in
      ground (arith, rest)
]

Some-append : {A : Type 0} (P : A → Type 0) (xs ys : List A) → Some P xs → Some P (xs ++ ys)
Some-append P [] ys h = absurd h
Some-append P (y ∷ xs) ys (inl h) = inl h
Some-append P (y ∷ xs) ys (inr h) = inr (Some-append P xs ys h)

Some-append_last :
    {A : Type 0} (P : A → Type 0) (xs : List A) (y : A) → P y → Some P (xs ++ (y ∷ []))
Some-append_last P [] y h = inl h
Some-append_last P (z ∷ xs) y h = inr (Some-append_last P xs y h)

module _ (v : Vault) (x : Provisioning) where
  -- The row is the receipt that these data make for the statement.
  abbrev pub Signs : Signing → Statement → StatementResponse → Type 0
  Signs g s r =
      (r.statement_id ≡ s.id)
      × (r.envelope_id ≡ g.envelope_id)
      × (r.organization_id ≡ g.organization_id)
      × (r.responded_at ≡ g.now)
      × ((dek : List ℕ) × (decrypt v.aead r.wrapped_dek g.user_kek dek_aad ≡ ok dek)
          × (decrypt v.aead r.response_evidence_encrypted dek evidence_aad ≡ ok g.evidence))

  receipt-Signs :
      (g : Signing) (draw : ℕ) (s : Statement) → VaultLaws v → Signs g s (receipt v x g draw s)
  receipt-Signs g draw s laws = (
    refl,
    refl,
    refl,
    refl,
    (
      x.key_at draw,
      decrypt-encrypt_own v.aead laws.aead_laws (v.nonce_at (draw + 1)) (x.key_at draw) g.user_kek
          dek_aad (laws.nonces (draw + 1)),
      decrypt-encrypt_own v.aead laws.aead_laws (v.nonce_at draw) g.evidence (x.key_at draw)
          evidence_aad (laws.nonces draw),
    ),
  )

  -- One step of the loop.
  add_receipts-cons :
      (g : Signing) (draw : ℕ) (required : List Statement) (b : StatementAnswer)
      (given : List StatementAnswer) (rows out : List StatementResponse)
      → add_receipts v x g draw required (b ∷ given) rows ≡ some out
      → (t : Statement) × (find (answers b) required ≡ some t)
        × (add_receipts v x g (draw + 2) required given (rows ++ (receipt v x g draw t ∷ []))
            ≡ some out)
  unfolding add_receipts
  add_receipts-cons g draw required b given rows out h =
      elim (Option-cases (find (answers b) required)) [
        | inl m ↦
            let clash : ◌≡◌ {A = Option (List StatementResponse)} none (some out) =
              rw (add_receipts, m) at h in
            cc
        | inr (t, e) ↦ elim (Bool-cases (any (is_receipt t.id g.envelope_id) rows)) [
          | inl z ↦
              let clash : ◌≡◌ {A = Option (List StatementResponse)} none (some out) =
                rw (add_receipts, e, z) at h in
              cc
          | inr z ↦ (t, e, rw (add_receipts, e, z) at h)
        ]
      ]

  add_receipts-Some :
      (P : StatementResponse → Type 0) (g : Signing) (draw : ℕ) (required : List Statement)
      (given : List StatementAnswer) (rows out : List StatementResponse)
      → add_receipts v x g draw required given rows ≡ some out
      → Some P rows
      → Some P out
  unfolding add_receipts
  add_receipts-Some P g draw required [] rows out h k = subst (Some P) (some-equal rows out h) k
  add_receipts-Some P g draw required (b ∷ given) rows out h k =
      let (t, e, rest) = add_receipts-cons g draw required b given rows out h in
      add_receipts-Some P g (draw + 2) required given (rows ++ (receipt v x g draw t ∷ [])) out rest
        (Some-append P rows (receipt v x g draw t ∷ []) k)

  pub add_receipts-Signs :
      (g : Signing) (draw : ℕ) (required : List Statement) (given : List StatementAnswer)
      (rows out : List StatementResponse) (a : StatementAnswer)
      → VaultLaws v
      → add_receipts v x g draw required given rows ≡ some out
      → any (same_answer a) given ≡ true
      → (t : Statement) × (find (answers a) required ≡ some t) × Some (Signs g t) out
  add_receipts-Signs g draw required [] rows out a laws h k = cc
  add_receipts-Signs g draw required (b ∷ given) rows out a laws h k =
      let (t, e, rest) = add_receipts-cons g draw required b given rows out h in
      elim (Bool-cases (same_answer a b)) [
        | inl y ↦ (
          t,
          sym (same_found a b required y) ∙ e,
          add_receipts-Some (Signs g t) g (draw + 2) required given
              (rows ++ (receipt v x g draw t ∷ [])) out rest
              (Some-append_last (Signs g t) rows (receipt v x g draw t)
                (receipt-Signs g draw t laws)),
        )
        | inr n ↦
            add_receipts-Signs g (draw + 2) required given (rows ++ (receipt v x g draw t ∷ [])) out
              a laws rest (rw n at k)
      ]
