-- ===== src/MultiSigner/Threshold.antt =====
-- What an assembled transaction carries, after any history of calls (src/multi-signer.js).
use mathlib.Core.List.{Perm}
use x402_facilitator_stellar.Common.{
  ℕ, ◌≤◌, String, ◌≡◌, refl, inl, inr, true, false, some, List, [], arith, Option-cases, length,
  All, ok,
}
use x402_facilitator_stellar.Common.Dict
use x402_facilitator_stellar.Common.Sort.{sort_by-perm, All-sort_by, length-sort_by}
use x402_facilitator_stellar.MultiSigner.{
  Envelope, assemble_envelope, is_over, is_full, is_authorized, Assembled, assembled, by_signer,
}
use x402_facilitator_stellar.MultiSigner.Soundness.{run, Op, run-AllSound, get-IsSound}

-- Whatever was called before, an assembled transaction is the one of a live envelope of that
-- identifier, before its deadline. It carries the collected signatures, which are of distinct
-- signers, each on the allow-list if there is one, and at least as many as the threshold, which is
-- not 0.
pub assemble_envelope_lem :
    (os : List Op) (id : String) (now : ℕ) (a : Assembled)
    → (assemble_envelope (run [] os) id now).1 ≡ ok a
    → (e : Envelope) × (Dict.get id (run [] os) ≡ some e)
      × (is_over e now ≡ false)
      × (a.transaction_xdr ≡ e.transaction_xdr)
      × Perm e.signatures a.signatures
      × Dict.IsUnique e.signatures
      × All (λ s. is_authorized e.required_signers s.0 ≡ true) a.signatures
      × (e.threshold ≤ length a.signatures)
      × (1 ≤ e.threshold)
unfolding assemble_envelope
assemble_envelope_lem os id now a done = elim (Option-cases (Dict.get id (run [] os))) [
  | inl none_there ↦ absurd (ground (arith, done, none_there))
  | inr (e, known) ↦
      let sound = get-IsSound (run [] os) id e (run-AllSound [] os tt) known in
      let live : is_over e now ≡ false = ground (arith, done, known) in
      let full : is_full e ≡ true = ground (arith, done, known) in
      let same : assembled e ≡ a = ground (arith, done, known) in
      (
        e,
        known,
        live,
        rw (← same) refl,
        rw (← same) (sort_by-perm by_signer e.signatures),
        sound.1,
        rw (← same) (
            All-sort_by by_signer (λ s. is_authorized e.required_signers s.0 ≡ true) e.signatures
              sound.2),
        rw (← same) (ground (arith, length-sort_by by_signer e.signatures, full)),
        sound.0,
      )
]
