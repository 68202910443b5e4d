-- ===== src/MultiSigner/Tests.antt =====
-- Co-signing at a concrete history.
use x402_facilitator_stellar.Common.{
  ◌≤◌, ◌≡◌, refl, true, false, some, List, [], ◌∷◌, length, All, ok,
}
use mathlib.Core.List.{Perm}
use x402_facilitator_stellar.Common.Dict
use x402_facilitator_stellar.Common.Sort.{sort_by, insert_by}
use x402_facilitator_stellar.MultiSigner.{
  Envelope, Assembled, create_envelope, check_envelope, check_signature, add_signature,
  assemble_envelope, is_over, is_authorized,
}
use x402_facilitator_stellar.MultiSigner.Soundness.{Op, creates, signs_with, step, run}
use x402_facilitator_stellar.MultiSigner.Threshold.{assemble_envelope_lem}

-- Two of three signers; the first signs twice.
abbrev history : List Op
history =
    creates "e" "XDR" 2 (some ("A" ∷ "B" ∷ "C" ∷ [])) 60 1
    ∷ signs_with "e" "B" "b" 2
    ∷ signs_with "e" "B" "b2" 3
    ∷ signs_with "e" "D" "d" 4
    ∷ signs_with "e" "A" "a" 5
    ∷ []

abbrev both : Assembled
both = record {
  envelope_id = "e";
  transaction_xdr = "XDR";
  threshold = 2;
  signatures = ("A", "a") ∷ ("B", "b2") ∷ [];
}

assembles_both : (assemble_envelope (run [] history) "e" 6).1 ≡ ok both
unfolding run step create_envelope check_envelope check_signature add_signature assemble_envelope
    sort_by insert_by Dict.get Dict.set
assembles_both = refl

assemble_envelope_lem_example :
    (e : Envelope) × (Dict.get "e" (run [] history) ≡ some e)
    × (is_over e 6 ≡ false)
    × ("XDR" ≡ e.transaction_xdr)
    × Perm e.signatures both.signatures
    × Dict.IsUnique e.signatures
    × All (λ s. is_authorized e.required_signers s.0 ≡ true) both.signatures
    × (e.threshold ≤ length both.signatures)
    × (1 ≤ e.threshold)
assemble_envelope_lem_example = assemble_envelope_lem history "e" 6 both assembles_both
