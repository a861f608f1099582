-- ===== src/Blocking/Releases.antt =====
-- The operations on paths give their fid back.
use r9p.Base.{ℕ, Bytes, ◌≡◌, ◌⊎◌, inl, inr, refl, Option, none, some, Error, Result, ok, err, arith}
use r9p.Base.Run.{resume, ◌>>=◌, ◌>>◌, return, lift, attempt, ignore, caught, dropped}
use r9p.Qid.{Qid}
use r9p.Blocking.{Environment, BlockingClient, M}
use r9p.Blocking.Fids.{clunk, open_}
use r9p.Blocking.Paths.{
  walk_path, stat_path, read_path, read_path_range, write_path, write_file, create_at, if_opened,
  given_back, created_at,
}

module _ {S : Type 0} (env : Environment S) where
  -- The client stands just behind a clunk of the fid.
  abbrev pub JustClunked : ℕ → BlockingClient S → Type 0
  JustClunked fid c' =
      (before : BlockingClient S) × (clunked : Result (Unit {0})) × (clunk env fid before
        ≡ some (clunked, c'))

  -- The last thing that the method does is to clunk the fid, in whatever way it ends.
  pub record Clunks (fid : ℕ) {A : Type 0} (m : M env A) : Type 0 where
    pub last : (c c' : BlockingClient S) (r : Result A) → m c ≡ some (r, c') → JustClunked fid c'

  -- A method whose errors are all caught.
  pub record Catches {A : Type 0} (m : M env A) : Type 0 where
    pub never : (c c' : BlockingClient S) (e : Error) → m c ≡ some (err e, c') → ⊥

  pub Catches-attempt : {A : Type 0} (m : M env A) → Catches (attempt m)
  unfolding attempt
  Catches-attempt {A} m = record { never = λ c c' e h. go (m c) h }
    where
      go :
          {c' : BlockingClient S} {e : Error} (o : Option (Result A × BlockingClient S))
          → caught o ≡ some (err e, c')
          → ⊥
      go none h = cc
      go (some (r, c1)) h = cc

  pub Catches-return : {A : Type 0} (a : A) → Catches {A = A} (return a)
  unfolding return
  Catches-return a = record { never = λ c c' e h. cc }

  Catches-opened :
      {A : Type 0} (next : M env A) (opened : Result Qid) → Catches (if_opened env next opened)
  Catches-opened next (ok qid) = Catches-attempt next
  Catches-opened next (err e) = Catches-return (err e)

  Catches-created : (created : Result (ℕ × Qid)) → Catches (created_at env created)
  Catches-created (ok (fid, qid)) = Catches-attempt _
  Catches-created (err e) = Catches-return (err e)

  pub Clunks-bind :
      (fid : ℕ) {A B : Type 0} (m : M env A) (f : A → M env B)
      → Catches m
      → ((a : A) → Clunks fid (f a))
      → Clunks fid (m >>= f)
  unfolding ◌>>=◌
  Clunks-bind fid {A} {B} m f catches each = record { last = λ c c' r e. go c (m c) refl c' r e }
    where
      go :
          (c : BlockingClient S) (o : Option (Result A × BlockingClient S))
          → m c ≡ o
          → (c' : BlockingClient S) (r : Result B) → resume f o ≡ some (r, c')
          → JustClunked fid c'
      go c none same c' r e = cc
      go c (some (err x, c1)) same c' r e = absurd (catches.never c c1 x same)
      go c (some (ok a, c1)) same c' r e = (each a).last c1 c' r e

  pub Clunks-ignore :
      (fid : ℕ) {A : Type 0} (result : Result A)
      → Clunks fid (ignore (clunk env fid) >> lift result)
  unfolding ◌>>◌ ◌>>=◌ ignore lift
  Clunks-ignore fid {A} result = record { last = λ c c' r e. go c (clunk env fid c) refl c' r e }
    where
      go :
          (c : BlockingClient S) (o : Option (Result (Unit {0}) × BlockingClient S))
          → clunk env fid c ≡ o
          → (c' : BlockingClient S) (r : Result A)
          → resume (λ _. lift result) (dropped o) ≡ some (r, c')
          → JustClunked fid c'
      go c none same c' r e = cc
      go c (some (clunked, c1)) same c' r e = (c, clunked, rw same (ground arith))

  Clunks-given_back :
      (fid : ℕ) {A : Type 0} (result : Result A) → Clunks fid (given_back env fid result)
  Clunks-given_back fid (err e) = Clunks-ignore fid (err e)
  Clunks-given_back fid {A} (ok value) = record {
    last = λ c c' r e. go c (clunk env fid c) refl c' r (unfold ◌>>◌ ◌>>=◌ in e);
  }
    where
      go :
          (c : BlockingClient S) (o : Option (Result (Unit {0}) × BlockingClient S))
          → clunk env fid c ≡ o
          → (c' : BlockingClient S) (r : Result A) → resume (λ _. return value) o ≡ some (r, c')
          → JustClunked fid c'
      go c none same c' r e = cc
      go c (some (err x, c1)) same c' r e = (c, err x, rw same (ground arith))
      go c (some (ok _, c1)) same c' r e = (c, ok tt, rw same (unfold return in ground arith))

  -- Either the walk to the path fails, and nothing is done after it; or the last thing done is to clunk the
  -- fid that it walked to.
  pub record Releases (path : Bytes) {A : Type 0} (m : M env A) : Type 0 where
    pub released :
        (c c' : BlockingClient S) (r : Result A)
        → m c ≡ some (r, c')
        → ((e : Error) × (walk_path env path c ≡ some (err e, c')))
          ⊎ ((fid : ℕ) × (walked : BlockingClient S) × (walk_path env path c
                ≡ some (ok fid, walked))
              × JustClunked fid c')

  Releases-walk :
      (path : Bytes) {A : Type 0} (f : ℕ → M env A)
      → ((fid : ℕ) → Clunks fid (f fid))
      → Releases path (walk_path env path >>= f)
  unfolding ◌>>=◌
  Releases-walk path {A} f each = record {
    released = λ c c' r e. go c (walk_path env path c) refl c' r e;
  }
    where
      go :
          (c : BlockingClient S) (o : Option (Result ℕ × BlockingClient S))
          → walk_path env path c ≡ o
          → (c' : BlockingClient S) (r : Result A) → resume f o ≡ some (r, c')
          → ((e : Error) × (walk_path env path c ≡ some (err e, c')))
            ⊎ ((fid : ℕ) × (walked : BlockingClient S) × (walk_path env path c
                  ≡ some (ok fid, walked))
                × JustClunked fid c')
      go c none same c' r e = cc
      go c (some (err x, c1)) same c' r e = inl (x, rw same (ground arith))
      go c (some (ok fid, c1)) same c' r e = inr (fid, c1, same, (each fid).last c1 c' r e)

  -- An open, what is done if it succeeded, and the end.
  Clunks-opened :
      (fid mode : ℕ) {A : Type 0} (next : M env A) (f : Result A → M env A)
      → ((result : Result A) → Clunks fid (f result))
      → Clunks fid (attempt (open_ env fid mode) >>= λ opened. if_opened env next opened >>= f)
  Clunks-opened fid mode next f each =
      Clunks-bind fid _ _ (Catches-attempt _)
        (λ opened. Clunks-bind fid _ _ (Catches-opened next opened) each)

  -- Reading, writing, creating and examining a file by its path each end with the clunk of the fid that they
  -- walked to, whatever the other steps answer; or the walk itself has failed.
  pub paths-Releases :
      (path name payload : Bytes) (offset count perm mode : ℕ)
      → Releases path (stat_path env path)
        × Releases path (read_path env path)
        × Releases path (read_path_range env path offset count)
        × Releases path (write_path env path offset payload)
        × Releases path (write_file env path payload)
        × Releases path (create_at env path name perm mode)
  unfolding stat_path read_path read_path_range write_path write_file create_at
  paths-Releases path name payload offset count perm mode = (
    Releases-walk path _
        (λ fid. Clunks-bind fid _ _ (Catches-attempt _) (λ result. Clunks-ignore fid result)),
    Releases-walk path _ (λ fid. Clunks-opened fid _ _ _ (λ result. Clunks-ignore fid result)),
    Releases-walk path _ (λ fid. Clunks-opened fid _ _ _ (λ result. Clunks-ignore fid result)),
    Releases-walk path _ (λ fid. Clunks-opened fid _ _ _ (λ result. Clunks-given_back fid result)),
    Releases-walk path _ (λ fid. Clunks-opened fid _ _ _ (λ result. Clunks-given_back fid result)),
    Releases-walk path _ (λ fid. Clunks-bind fid _ _ (Catches-attempt _) (λ created.
        Clunks-bind fid _ _ (Catches-created created) (λ result. Clunks-given_back fid result))),
  )
