-- ===== src/ReadOnly/Sessions.antt =====
-- What a program can do with the read-only view of runtime/readonlyfs.go, over any number of calls.
use particles.Base.{
  ℕ, zero, suc, ◌≡◌, refl, String, Bool, true, false, Option, none, some, List, [], ◌∷◌, ◌++◌, All,
  All-append, ◌==◌, if◌then◌else◌, arith,
}
use particles.ReadOnly.{
  Interface, reader, reader_at, seeker, read_dir_file, stat_ater, readlink_ater, Call, open_call,
  open_at_call, use_call, Wrapped, ro_file, ro_dir, file_as, dir_as, wrapped, ro_wrap, opened,
  ro_open, ro_open_at, use_interface, o_rdonly,
}

-- The interfaces that only read
abbrev pub reads : Interface → Bool
reads reader = true
reads reader_at = true
reads seeker = true
reads read_dir_file = true
reads stat_ater = true
reads readlink_ater = true
reads _ = false

-- A call that changes nothing in the wrapped file system
abbrev pub IsReading : Call → Type 0
IsReading (open_at_call name flag) = flag ≡ o_rdonly
IsReading (use_call i) = reads i ≡ true
IsReading _ = Unit

-- What the program does: it opens a path, opens a name in a directory it has, or uses a file it has.
pub data Action : Type 0 where
  open_path : String → Action
  open_in : (handle : ℕ) → (name : String) → (flag : ℕ) → Action
  use_file : (handle : ℕ) → Interface → Action

abbrev pub at_handle {ℓ} : {A : Type ℓ} → List A → ℕ → Option A
at_handle [] i = none
at_handle (x ∷ xs) zero = some x
at_handle (x ∷ xs) (suc i) = at_handle xs i

module _ {ℓ} {File : Type ℓ} (stat_is_dir : File → Option Bool) (has : File → Interface → Bool)
    (open_root : String → Option File) (open_at : File → String → ℕ → Option File) where
  abbrev pub Session : Type ℓ
  Session = List (Wrapped File) × List Call

  abbrev took : Session → Option (Wrapped File) × List Call → Session
  took (handles, calls) (none, more) = (handles, calls ++ more)
  took (handles, calls) (some w, more) = (handles ++ (w ∷ []), calls ++ more)

  abbrev open_handle : Session → Option (Wrapped File) → String → ℕ → Session
  open_handle s none name flag = s
  open_handle s (some w) name flag =
      took s (ro_open_at stat_is_dir has open_root open_at w name flag)

  abbrev use_handle : Session → Option (Wrapped File) → Interface → Session
  use_handle s none i = s
  use_handle s (some w) i = took s (none, use_interface stat_is_dir has open_root open_at w i)

  abbrev act : Action → Session → Session
  act (open_path name) s = took s (ro_open stat_is_dir has open_root open_at name)
  act (open_in handle name flag) s = open_handle s (at_handle s.0 handle) name flag
  act (use_file handle i) s = use_handle s (at_handle s.0 handle) i

  abbrev pub run_actions : List Action → Session → Session
  run_actions [] s = s
  run_actions (a ∷ actions) s = run_actions actions (act a s)

  took-IsReading :
      (s : Session) (r : Option (Wrapped File) × List Call)
      → All IsReading s.1
      → All IsReading r.1
      → All IsReading (took s r).1
  took-IsReading (handles, calls) (none, more) h k = All-append IsReading calls more h k
  took-IsReading (handles, calls) (some w, more) h k = All-append IsReading calls more h k

  wrapped-IsReading :
      (f : File) (o : Option Bool) → All IsReading (wrapped stat_is_dir has open_root open_at f o).1
  unfolding wrapped
  wrapped-IsReading f none = (tt, (tt, tt))
  wrapped-IsReading f (some true) = (tt, tt)
  wrapped-IsReading f (some false) = (tt, tt)

  opened-IsReading :
      (call : Call) (o : Option File)
      → IsReading call
      → All IsReading (opened stat_is_dir has open_root open_at call o).1
  unfolding opened ro_wrap
  opened-IsReading call none h = (h, tt)
  opened-IsReading call (some f) h = (h, wrapped-IsReading f (stat_is_dir f))

  if-IsReading :
      (b : Bool) (x y : Option (Wrapped File) × List Call)
      → (b ≡ true → All IsReading x.1)
      → All IsReading y.1
      → All IsReading (if b then x else y).1
  if-IsReading true x y h k = h refl
  if-IsReading false x y h k = k

  ro_open_at-IsReading :
      (w : Wrapped File) (name : String) (flag : ℕ)
      → All IsReading (ro_open_at stat_is_dir has open_root open_at w name flag).1
  unfolding ro_open_at
  ro_open_at-IsReading (ro_file f) name flag = tt
  ro_open_at-IsReading (ro_dir f) name flag =
      if-IsReading (flag == o_rdonly) _ _
        (λ _.
          if-IsReading (has f Interface.open_ater) _ _
            (λ _. opened-IsReading (open_at_call name o_rdonly) (open_at f name o_rdonly) refl) tt)
        tt

  calls_if :
      (b : Bool) (x : List Call)
      → (b ≡ true → All IsReading x)
      → All IsReading (if b then x else [])
  calls_if true x h = h refl
  calls_if false x h = tt

  file_as_lem : (i : Interface) → file_as i ≡ true → reads i ≡ true
  unfolding file_as
  file_as_lem reader_at h = refl
  file_as_lem seeker h = refl
  file_as_lem _ h = cc

  dir_as_lem : (i : Interface) → dir_as i ≡ true → reads i ≡ true
  unfolding dir_as
  dir_as_lem read_dir_file h = refl
  dir_as_lem stat_ater h = refl
  dir_as_lem readlink_ater h = refl
  dir_as_lem _ h = cc

  asked-IsReading :
      (b : Bool) (f : File) (i : Interface)
      → (b ≡ true → reads i ≡ true)
      → All IsReading (if b then (if has f i then use_call i ∷ [] else []) else [])
  asked-IsReading b f i h = calls_if b _ λ e. calls_if (has f i) _ λ _. (h e, tt)

  use_interface-IsReading :
      (w : Wrapped File) (i : Interface)
      → All IsReading (use_interface stat_is_dir has open_root open_at w i)
  unfolding use_interface
  use_interface-IsReading w reader = (refl, tt)
  use_interface-IsReading (ro_file f) i = asked-IsReading (file_as i) f i (file_as_lem i)
  use_interface-IsReading (ro_dir f) i = asked-IsReading (dir_as i) f i (dir_as_lem i)

  act-IsReading : (a : Action) (s : Session) → All IsReading s.1 → All IsReading (act a s).1
  unfolding ro_open
  act-IsReading (open_path name) s h =
      took-IsReading s _ h (opened-IsReading (open_call name) (open_root name) tt)
  act-IsReading (open_in handle name flag) s h = in_handle (at_handle s.0 handle)
    where
      in_handle : (o : Option (Wrapped File)) → All IsReading (open_handle s o name flag).1
      in_handle none = h
      in_handle (some w) = took-IsReading s _ h (ro_open_at-IsReading w name flag)
  act-IsReading (use_file handle i) s h = in_handle (at_handle s.0 handle)
    where
      in_handle : (o : Option (Wrapped File)) → All IsReading (use_handle s o i).1
      in_handle none = h
      in_handle (some w) =
          took-IsReading s (none, use_interface stat_is_dir has open_root open_at w i) h
            (use_interface-IsReading w i)

  -- Whatever interfaces the wrapped files have, and whatever the program opens and uses through the
  -- read-only view, at any depth, the calls that reach the wrapped file system only read: each open in
  -- a directory is read-only, and no interface that writes is used.
  pub run_actions-IsReading :
      (actions : List Action) (s : Session)
      → All IsReading s.1
      → All IsReading (run_actions actions s).1
  run_actions-IsReading [] s h = h
  run_actions-IsReading (a ∷ actions) s h =
      run_actions-IsReading actions (act a s) (act-IsReading a s h)

  -- Where the wrapped directory opens a file that says what it is, the view opens it too, as a
  -- directory exactly if it is one; a flag that is not read-only opens nothing.
  pub ro_open_at_opens :
      (f child : File) (name : String) (b : Bool)
      → has f Interface.open_ater ≡ true
      → open_at f name o_rdonly ≡ some child
      → stat_is_dir child ≡ some b
      → (flag : ℕ)
      → (ro_open_at stat_is_dir has open_root open_at (ro_dir f) name flag).0
        ≡ (if flag == o_rdonly then some (if b then ro_dir child else ro_file child) else none)
  unfolding ro_open_at opened ro_wrap wrapped
  ro_open_at_opens f child name true h e k flag = ground (arith, h, e, k)
  ro_open_at_opens f child name false h e k flag = ground (arith, h, e, k)
