-- ===== src/RateLimit/Tests.antt =====
-- A caller with a limit of two requests a minute, over both stores.
use x402_facilitator_stellar.Common.{
  String, ◌≡◌, refl, Bool, true, ◌&&◌, none, some, [], ◌∷◌, str_eq, eq_refl,
}
use x402_facilitator_stellar.Common.Dict
use x402_facilitator_stellar.Common.Dict.{Map}
use x402_facilitator_stellar.RateLimit.Store.{
  MemoryStore, PostgresStore, memory, postgres, memory-IsStore, postgres_get,
}
use x402_facilitator_stellar.RateLimit.Limiter.{
  Limits, Config, Caller, owner_id, key_config, bucket_id, check, check_verify, bypass, max_fee,
  check_settle,
}
use x402_facilitator_stellar.RateLimit.Budget.{fits, check_settle_allowed}

abbrev two : Limits
two = record {
  verify_rpm = 2;
  settle_rpm = 2;
  settle_rph = 5;
  settle_rpd = 9;
  fee_spd = 100000;
  catalog_rpm = 2;
  catalog_read_rpm = none;
}

abbrev config : Config
config = record { global = two; keys = []; max_fees = []; allowlist = [] }

abbrev caller : Caller
caller = record { key_id = none; ip = "1.2.3.4" }

abbrev matches : String → String → Bool
matches = str_eq

abbrev empty : MemoryStore
empty = record { cells = []; max_size = 10 }

abbrev table : PostgresStore
table = record { rows = []; up = true }

check_settle_allowed_example :
    (check_settle memory matches config caller (some "stellar:pubnet") 120 empty).1.allowed ≡ (
      fits memory (bucket_id (owner_id caller) "settle" 60 120) 2 1 120 empty
      && fits memory (bucket_id (owner_id caller) "settle" 3600 120) 5 1 120 empty
      && fits memory (bucket_id (owner_id caller) "settle" 86400 120) 9 1 120 empty
      && fits memory
          (bucket_id (owner_id caller) "fee" 86400 120)
          100000
          (max_fee config (some "stellar:pubnet"))
          120
          empty)
unfolding key_config
check_settle_allowed_example =
    check_settle_allowed memory matches config _ memory-IsStore caller (some "stellar:pubnet") 120
      empty tt refl

unused : (k : String) → postgres.get k 120 table ≡ some none
unfolding postgres_get Dict.get
unused k = refl

passes : (check_verify postgres matches config caller 120 table).1.allowed ≡ true
unfolding check_verify bypass check key_config postgres_get Dict.get
passes = refl

abbrev busy : PostgresStore
busy = record {
  rows = (bucket_id "1.2.3.4" "verify" 60 120, record { count = 1; reset_at = 180 }) ∷ [];
  up = true;
}

busy_row :
    Dict.get (bucket_id "1.2.3.4" "verify" 60 120) busy.rows
    ≡ some (record { count = 1; reset_at = 180 })
unfolding Dict.get
busy_row = rw (eq_refl (bucket_id "1.2.3.4" "verify" 60 120)) refl
