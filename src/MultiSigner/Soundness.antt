-- ===== src/MultiSigner/Soundness.antt =====
-- The envelopes after any history of calls (src/multi-signer.js).
use x402_facilitator_stellar.Common.{
  ℕ, ◌≤◌, String, ◌≡◌, inl, inr, true, ◌||◌, Option, some, List, [], ◌∷◌, arith, str_eq, leb,
  if◌then◌else◌, Bool-cases, Result-cases, Option-cases, length, All, All-map, ok,
}
use x402_facilitator_stellar.Common.Dict
use x402_facilitator_stellar.MultiSigner.{
  check_envelope, check_signature, complete, Envelope, Engine, create_envelope, add_signature,
  is_complete, assemble_envelope, purge_expired, Reply, fails, missing, signs, take_reply,
  take_replies, ask, is_over, is_full, is_authorized, signed, expire, lapse, is_lapsed,
}

pub data Op : Type 0 where
  creates :
      (id xdr : String) → (threshold : ℕ) → (required : Option (List String)) → (ttl now : ℕ) → Op
  signs_with : (id signer signature : String) → (now : ℕ) → Op
  looks : (id : String) → (now : ℕ) → Op
  assembles : (id : String) → (now : ℕ) → Op
  purges : (now : ℕ) → Op
  asks : (id : String) → (now : ℕ) → List (Reply × ℕ) → Op

unfoldable pub step : Engine → Op → Engine
step m (creates id xdr t required ttl now) = (create_envelope m id xdr t required ttl now).0
step m (signs_with id signer signature now) = (add_signature m id signer signature now).0
step m (looks id now) = (is_complete m id now).0
step m (assembles id now) = (assemble_envelope m id now).0
step m (purges now) = (purge_expired m now).0
step m (asks id now replies) = (take_replies (ask m id now).0 id replies).0

unfoldable pub run : Engine → List Op → Engine
run m [] = m
run m (o ∷ os) = run (step m o) os

-- The signers of an envelope are distinct and authorized, and the threshold is not 0.
abbrev pub IsSound : Envelope → Type 0
IsSound e =
    (1 ≤ e.threshold)
    × Dict.IsUnique e.signatures
    × All (λ s. is_authorized e.required_signers s.0 ≡ true) e.signatures

abbrev pub AllSound : Engine → Type 0
AllSound = All (λ e. IsSound e.1)

set-AllSound :
    (m : Engine) (id : String) (e : Envelope) → IsSound e → AllSound m → AllSound (Dict.set id e m)
set-AllSound m id e sound h = Dict.All-set (λ x. IsSound x.1) id e m sound h

pub get-IsSound :
    (m : Engine) (id : String) (e : Envelope) → AllSound m → Dict.get id m ≡ some e → IsSound e
get-IsSound m id e h known = Dict.All-get (λ k x. IsSound x) id e m h known

check_envelope_lem :
    (id xdr : String) (t : ℕ) (required : Option (List String)) (done : Unit {0})
    → check_envelope id xdr t required ≡ ok done
    → 1 ≤ t
unfolding check_envelope
check_envelope_lem id xdr t required done e = ground (arith, e)

create_envelope-AllSound :
    (m : Engine) (id xdr : String) (t : ℕ) (required : Option (List String)) (ttl now : ℕ)
    → AllSound m
    → AllSound (create_envelope m id xdr t required ttl now).0
unfolding create_envelope
create_envelope-AllSound m id xdr t required ttl now h =
    elim (Result-cases (check_envelope id xdr t required)) [
      | inl (r, e) ↦ rw (create_envelope, e) h
      | inr (done, e) ↦
          rw (create_envelope, e)
            (set-AllSound m id _ (check_envelope_lem id xdr t required done e, tt, tt) h)
    ]

signed-IsSound :
    (e : Envelope) (signer signature : String)
    → is_authorized e.required_signers signer ≡ true
    → IsSound e
    → IsSound (signed e signer signature)
signed-IsSound e signer signature may h =
    let next = Dict.set signer signature e.signatures in
    let unique = Dict.set-IsUnique signer signature e.signatures h.1 in
    let authorized =
      Dict.All-set (λ s. is_authorized e.required_signers s.0 ≡ true) signer signature e.signatures
        may h.2 in
    elim (Bool-cases (leb e.threshold (length next))) [
      | inl full ↦ rw full (h.0, unique, authorized)
      | inr short ↦ rw short (h.0, unique, authorized)
    ]

check_signature_lem :
    (e : Envelope) (signer signature : String) (done : Unit {0})
    → check_signature e signer signature ≡ ok done
    → is_authorized e.required_signers signer ≡ true
unfolding check_signature
check_signature_lem e signer signature done h = ground (arith, h)

add_signature-AllSound :
    (m : Engine) (id signer signature : String) (now : ℕ)
    → AllSound m
    → AllSound (add_signature m id signer signature now).0
unfolding add_signature
add_signature-AllSound m id signer signature now h = elim (Option-cases (Dict.get id m)) [
  | inl none_there ↦ rw (add_signature, none_there) h
  | inr (e, known) ↦
      let sound = get-IsSound m id e h known in
      elim (Bool-cases (is_over e now)) [
        | inl over ↦ rw (add_signature, known, over) (set-AllSound m id (expire e) sound h)
        | inr live ↦ elim (Result-cases (check_signature e signer signature)) [
          | inl (r, refused) ↦ rw (add_signature, known, live, refused) h
          | inr (done, passed) ↦
              rw (add_signature, known, live, passed)
                (set-AllSound m id (signed e signer signature)
                  (signed-IsSound e signer signature
                    (check_signature_lem e signer signature done passed) sound)
                  h)
        ]
      ]
]

is_complete-AllSound :
    (m : Engine) (id : String) (now : ℕ) → AllSound m → AllSound (is_complete m id now).0
unfolding is_complete
is_complete-AllSound m id now h = elim (Option-cases (Dict.get id m)) [
  | inl none_there ↦ rw (is_complete, none_there) h
  | inr (e, known) ↦ elim (Bool-cases (is_over e now)) [
    | inl over ↦
        rw (is_complete, known, over) (set-AllSound m id (expire e) (get-IsSound m id e h known) h)
    | inr live ↦ rw (is_complete, known, live) h
  ]
]

assemble_envelope-AllSound :
    (m : Engine) (id : String) (now : ℕ) → AllSound m → AllSound (assemble_envelope m id now).0
unfolding assemble_envelope
assemble_envelope-AllSound m id now h = elim (Option-cases (Dict.get id m)) [
  | inl none_there ↦ rw (assemble_envelope, none_there) h
  | inr (e, known) ↦
      let sound = get-IsSound m id e h known in
      elim (Bool-cases (is_over e now)) [
        | inl over ↦ rw (assemble_envelope, known, over) (set-AllSound m id (expire e) sound h)
        | inr live ↦ elim (Bool-cases (is_full e)) [
          | inl full ↦
              rw (assemble_envelope, known, live, full)
                (set-AllSound m id (record e { status = complete }) sound h)
          | inr short ↦ rw (assemble_envelope, known, live, short) h
        ]
      ]
]

purge_expired-AllSound : (m : Engine) (now : ℕ) → AllSound m → AllSound (purge_expired m now).0
unfolding purge_expired
purge_expired-AllSound m now h =
    All-map (λ e. IsSound e.1) (λ e. IsSound e.1) (lapse now) m (λ e sound. kept e.1 sound) h
  where
    kept : (e : Envelope) → IsSound e → IsSound (if is_lapsed now e then expire e else e)
    kept e sound = elim (Bool-cases (is_lapsed now e)) [
      | inl lapsed ↦ rw lapsed sound
      | inr still ↦ rw still sound
    ]

take_reply-AllSound :
    (m : Engine) (id : String) (r : Reply) (now : ℕ)
    → AllSound m
    → AllSound (take_reply m id r now).0
take_reply-AllSound m id fails now h = h
take_reply-AllSound m id missing now h = h
take_reply-AllSound m id (signs signer signature) now h =
    elim (Bool-cases (str_eq signer "" || str_eq signature "")) [
      | inl blank ↦ rw blank h
      | inr given ↦ rw given (add_signature-AllSound m id signer signature now h)
    ]

take_replies-AllSound :
    (m : Engine) (id : String) (rs : List (Reply × ℕ))
    → AllSound m
    → AllSound (take_replies m id rs).0
unfolding take_replies
take_replies-AllSound m id [] h = h
take_replies-AllSound m id ((r, now) ∷ rs) h =
    take_replies-AllSound (take_reply m id r now).0 id rs (take_reply-AllSound m id r now h)

ask-AllSound : (m : Engine) (id : String) (now : ℕ) → AllSound m → AllSound (ask m id now).0
unfolding ask
ask-AllSound m id now h = elim (Option-cases (Dict.get id m)) [
  | inl none_there ↦ rw (ask, none_there) h
  | inr (e, known) ↦ elim (Bool-cases (is_over e now)) [
    | inl over ↦ rw (ask, known, over) (set-AllSound m id (expire e) (get-IsSound m id e h known) h)
    | inr live ↦ rw (ask, known, live) h
  ]
]

step-AllSound : (m : Engine) (o : Op) → AllSound m → AllSound (step m o)
unfolding step
step-AllSound m (creates id xdr t required ttl now) h =
    create_envelope-AllSound m id xdr t required ttl now h
step-AllSound m (signs_with id signer signature now) h =
    add_signature-AllSound m id signer signature now h
step-AllSound m (looks id now) h = is_complete-AllSound m id now h
step-AllSound m (assembles id now) h = assemble_envelope-AllSound m id now h
step-AllSound m (purges now) h = purge_expired-AllSound m now h
step-AllSound m (asks id now replies) h =
    take_replies-AllSound (ask m id now).0 id replies (ask-AllSound m id now h)

pub run-AllSound : (m : Engine) (os : List Op) → AllSound m → AllSound (run m os)
unfolding run
run-AllSound m [] h = h
run-AllSound m (o ∷ os) h = run-AllSound (step m o) os (step-AllSound m o h)
