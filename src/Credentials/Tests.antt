-- ===== src/Credentials/Tests.antt =====
-- The credential store at concrete inputs.
use particles.Base.{ℕ, String, refl, some, List, [], ◌∷◌, ◌≡◌, if◌then◌else◌, str_eq, eq_iff, arith}
use particles.Base.Dict
use particles.Credentials.{raw_meta, Descriptor, Secret, ok}
use particles.Credentials.Memory.{
  Entry, Backend, new_backend, put, write_secrets, get_by_name, get_by_id, read_secret,
  empty_role_at, id_pointer, name_pointer,
}
use particles.Credentials.Memory.Consistency.{IsConsistent, new_backend-IsConsistent}
use particles.Credentials.Memory.View.{overlaid}
use particles.Credentials.Memory.Updates.{write_secrets_view}
use particles.Credentials.Memory.Isolation.{
  Call, put_call, step, ReadsSame, step-ReadsSame, run, run-IsConsistent, run_lookups_agree,
}

abbrev blank : ℕ → Entry
blank a = record { id = ""; name = ""; method = ""; meta = raw_meta; secrets = [] }

abbrev start : Backend
start = new_backend blank

abbrev old_token : List Secret
old_token = record { role = "access_token"; value = 1 ∷ [] } ∷ []

abbrev new_key : List Secret
new_key = record { role = "key"; value = 7 ∷ [] } ∷ []

abbrev added : List (String × Call)
added = ("cat", put_call "u1" "github" "oauth" (some raw_meta) old_token) ∷ []

abbrev one : Backend
one = run start added

abbrev old_entry : Descriptor
old_entry = record { id = "u1"; name = "github"; method = "oauth"; meta = raw_meta }

abbrev new_entry : Descriptor
new_entry = record { id = "u1"; name = "github"; method = "pat"; meta = raw_meta }

abbrev one-IsConsistent : IsConsistent one
unfolding id_pointer Dict.get
one-IsConsistent = run-IsConsistent start added (new_backend-IsConsistent blank) (refl, tt)

write_secrets_view_example :
    read_secret (write_secrets one "cat" "u1" new_key).1 "cat" "u1" "key" ≡ (
      if str_eq "u1" "u1"
      then overlaid new_key "key" (read_secret one "cat" "u1" "key")
      else read_secret one "cat" "u1" "key")
unfolding write_secrets run put id_pointer empty_role_at name_pointer Dict.get Dict.set step
write_secrets_view_example =
    write_secrets_view one "cat" "u1" new_key one-IsConsistent refl "u1" "key"

step-ReadsSame_example :
    ReadsSame "cat" one (step one "dog" (put_call "u1" "github" "pat" (some raw_meta) []))
step-ReadsSame_example =
    step-ReadsSame "cat" "dog" one (put_call "u1" "github" "pat" (some raw_meta) [])
      one-IsConsistent (λ e. ground (arith, e, eq_iff "dog" "cat"))

run_lookups_agree_example :
    ((n : String)
      → get_by_name (run start added) "cat" n ≡ ok old_entry
      → (old_entry.name ≡ n) × (get_by_id (run start added) "cat" old_entry.id ≡ ok old_entry))
    × ((i : String)
        → get_by_id (run start added) "cat" i ≡ ok old_entry
        → (old_entry.id ≡ i) × (get_by_name (run start added) "cat" old_entry.name ≡ ok old_entry))
unfolding id_pointer Dict.get
run_lookups_agree_example = run_lookups_agree blank added "cat" old_entry (refl, tt)
