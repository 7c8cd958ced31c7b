-- ===== src/ReadOnly/Tests.antt =====
-- The read-only view over a tree in which every file has every interface.
use particles.Base.{
  ℕ, ◌-◌, ◌≡◌, refl, String, Bool, true, false, Option, none, some, List, [], ◌∷◌, All, ◌==◌,
  if◌then◌else◌,
}
use particles.ReadOnly.{
  Interface, writer, reader_at, open_call, open_at_call, use_call, stat_call, ro_open, ro_open_at,
  use_interface,
}
use particles.ReadOnly.Sessions.{
  Action, open_path, open_in, use_file, IsReading, run_actions, run_actions-IsReading,
}

-- A file is the depth that is left below it.
abbrev depth_is_dir : ℕ → Option Bool
depth_is_dir n = some (if n == 0 then false else true)

abbrev has_all : ℕ → Interface → Bool
has_all n i = true

abbrev root_of : String → Option ℕ
root_of name = some 2

abbrev below : ℕ → String → ℕ → Option ℕ
below n name flag = if n == 0 then none else some (n - 1)

abbrev attempts : List Action
attempts =
    open_path "."
    ∷ open_in 0 "d" 2
    ∷ open_in 0 "d" 0
    ∷ open_in 1 "f" 0
    ∷ use_file 2 writer
    ∷ use_file 2 reader_at
    ∷ []

seen :
    (run_actions depth_is_dir has_all root_of below attempts ([], [])).1
    ≡ open_call "."
      ∷ stat_call
      ∷ open_at_call "d" 0
      ∷ stat_call
      ∷ open_at_call "f" 0
      ∷ stat_call
      ∷ use_call reader_at
      ∷ []
unfolding ro_open ro_open_at use_interface
seen = refl

run_actions-IsReading_example :
    All IsReading (run_actions depth_is_dir has_all root_of below attempts ([], [])).1
run_actions-IsReading_example =
    run_actions-IsReading depth_is_dir has_all root_of below attempts ([], []) tt
