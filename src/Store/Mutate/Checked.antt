-- ===== src/Store/Mutate/Checked.antt =====
-- The answers of Mutate of internal/store/mutate.go.
use sierx.Prelude.{ℕ, ◌≡◌, ◌≢◌, some, Option, none, List, [], Bytes, All}
use sierx.Store.Changes.{Uuid, Any, Mutation, Call, StoreError, empty_mutation}
use sierx.Store.Events.{calls}
use sierx.Store.Described.{Described}
use sierx.Store.Failures.{FirstError, NoError}
use sierx.Store.Database.{Database, Tx, Result, failed, ask, give, ◌>>=◌}
use sierx.Store.Mutate.{Summary, flush}

module _ {S : Type 0} (db : Database S) (marshal : Any → Option Bytes) (uuid_string : Uuid → Bytes)
    (parse_uuid : Bytes → Option Uuid) (fuel : ℕ) where
  -- Begin, the flush and the commit.
  abbrev transaction : Mutation → Tx S Summary
  transaction m = do
    _ ← ask db.begin
    summary ← flush db marshal uuid_string parse_uuid fuel m
    _ ← ask db.commit
    give summary

  -- What Mutate answers for a callback that makes some calls, from a mutation with the options, and then may fail itself.
  pub data Answer (start : Mutation) (cs : List Call) (error : Option StoreError) (s : S)
      : Result S Summary → Type 0 where
    own_error : (e : StoreError) → error ≡ some e → Answer start cs error s (failed e)
    first_error :
        (e : StoreError)
        → error ≡ none
        → FirstError marshal uuid_string e cs start
        → Answer start cs error s (failed e)
    nothing :
        error ≡ none
        → NoError marshal uuid_string cs start
        → (calls marshal uuid_string cs start).changes ≡ []
        → Answer start cs error s (failed empty_mutation)
    written :
        error ≡ none
        → NoError marshal uuid_string cs start
        → (calls marshal uuid_string cs start).changes ≢ []
        → All (λ c. c.events ≢ []) (calls marshal uuid_string cs start).changes
        → Answer start cs error s (transaction (calls marshal uuid_string cs start) s)
