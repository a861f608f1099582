-- ===== src/Blocking/Early.antt =====
-- The operations on paths that return by `?` behind the walk, and what they leave.
use r9p.Base.{
  ℕ, bit_and, Bool, true, false, Bool-cases, if◌then◌else◌, ◌==◌, length, Bytes, ◌≡◌, ◌⊎◌, inl, inr,
  refl, Option, some, none, Error, Result, ok, err, arith,
}
use r9p.Base.Run.{resume, ◌>>=◌}
use r9p.Qid.{Qid, dmdir, oread}
use r9p.Stat.{Stat}
use r9p.Blocking.{Environment, BlockingClient, M}
use r9p.Blocking.Fids.{open_, stat, write}
use r9p.Blocking.Paths.{walk_path, list_path, list_opened, rpc_path, rpc_opened, rpc_answer}
use r9p.Blocking.Releases.{
  JustClunked, Clunks, Catches, Catches-attempt, Catches-return, Clunks-ignore,
}

module _ {S : Type 0} (env : Environment S) where
  -- Where a method may fail: with an error and the client that it leaves.
  abbrev pub Failure : Type 1
  Failure = Error → BlockingClient S → Type 0

  -- Every error of the method is one of these failures.
  record FailsBy (F : Failure) {A : Type 0} (m : M env A) : Type 0 where
    pub fails : (c c' : BlockingClient S) (e : Error) → m c ≡ some (err e, c') → F e c'

  -- The method ends by clunking the fid, or by returning one of these failures as its error.
  abbrev pub ClunksOr : Failure → ℕ → {A : Type 0} → Result A → BlockingClient S → Type 0
  ClunksOr F fid r c' = JustClunked env fid c' ⊎ ((e : Error) × (r ≡ err e) × F e c')

  record Ends (F : Failure) (fid : ℕ) {A : Type 0} (m : M env A) : Type 0 where
    pub last : (c c' : BlockingClient S) (r : Result A) → m c ≡ some (r, c') → ClunksOr F fid r c'

  FailsBy-Catches : (F : Failure) {A : Type 0} (m : M env A) → Catches env m → FailsBy F m
  FailsBy-Catches F m h = record { fails = λ c c' e same. absurd (h.never c c' e same) }

  FailsBy-bind :
      (F : Failure) {A B : Type 0} (m : M env A) (f : A → M env B)
      → FailsBy F m
      → ((a : A) → Catches env (f a))
      → FailsBy F (m >>= f)
  unfolding ◌>>=◌
  FailsBy-bind F {A} {B} m f hm each = record { fails = λ c c' e h. go c (m c) refl c' e h }
    where
      go :
          (c : BlockingClient S) (o : Option (Result A × BlockingClient S))
          → m c ≡ o
          → (c' : BlockingClient S) (e : Error) → resume f o ≡ some (err e, c')
          → F e c'
      go c none same c' e h = absurd (ground (arith, h))
      go c (some (err x, c1)) same c' e h = hm.fails c c' e (rw same (ground (arith, h)))
      go c (some (ok a, c1)) same c' e h = absurd ((each a).never c1 c' e h)

  Ends-bind :
      (F : Failure) (fid : ℕ) {A B : Type 0} (m : M env A) (f : A → M env B)
      → FailsBy F m
      → ((a : A) → Ends F fid (f a))
      → Ends F fid (m >>= f)
  unfolding ◌>>=◌
  Ends-bind F fid {A} {B} m f hm each = record { last = λ c c' r h. go c (m c) refl c' r h }
    where
      go :
          (c : BlockingClient S) (o : Option (Result A × BlockingClient S))
          → m c ≡ o
          → (c' : BlockingClient S) (r : Result B) → resume f o ≡ some (r, c')
          → ClunksOr F fid r c'
      go c none same c' r h = absurd (ground (arith, h))
      go c (some (err x, c1)) same c' r h =
          inr (x, ground (arith, h), hm.fails c c' x (rw same (ground (arith, h))))
      go c (some (ok a, c1)) same c' r h = (each a).last c1 c' r h

  Ends-Clunks : (F : Failure) (fid : ℕ) {A : Type 0} (m : M env A) → Clunks env fid m → Ends F fid m
  Ends-Clunks F fid m h = record { last = λ c c' r e. inl (h.last c c' r e) }

  -- The walk has failed; or it has found a fid, and the method has ended by clunking it or by one of the
  -- failures behind the walk.
  pub record EndsEarly (path : Bytes) (F : ℕ → Failure) {A : Type 0} (m : M env A) : Type 0 where
    pub ends :
        (c c' : BlockingClient S) (r : Result A)
        → m c ≡ some (r, c')
        → ((e : Error) × (r ≡ err e) × (walk_path env path c ≡ some (err e, c')))
          ⊎ ((fid : ℕ) × (walked : BlockingClient S) × (walk_path env path c
                ≡ some (ok fid, walked))
              × ClunksOr (F fid) fid r c')

  EndsEarly-walk :
      (path : Bytes) (F : ℕ → Failure) {A : Type 0} (f : ℕ → M env A)
      → ((fid : ℕ) → Ends (F fid) fid (f fid))
      → EndsEarly path F (walk_path env path >>= f)
  unfolding ◌>>=◌
  EndsEarly-walk path F {A} f each = record {
    ends = λ c c' r h. go c (walk_path env path c) refl c' r h;
  }
    where
      go :
          (c : BlockingClient S) (o : Option (Result ℕ × BlockingClient S))
          → walk_path env path c ≡ o
          → (c' : BlockingClient S) (r : Result A) → resume f o ≡ some (r, c')
          → ((e : Error) × (r ≡ err e) × (walk_path env path c ≡ some (err e, c')))
            ⊎ ((fid : ℕ) × (walked : BlockingClient S) × (walk_path env path c
                  ≡ some (ok fid, walked))
                × ClunksOr (F fid) fid r c')
      go c none same c' r h = absurd (ground (arith, h))
      go c (some (err x, c1)) same c' r h = inl (x, ground (arith, h), rw same (ground (arith, h)))
      go c (some (ok fid, c1)) same c' r h = inr (fid, c1, same, (each fid).last c1 c' r h)

  FailsBy-if :
      (F : Failure) (b : Bool) {A : Type 0} (x y : M env A)
      → FailsBy F x
      → FailsBy F y
      → FailsBy F (if b then x else y)
  FailsBy-if F true x y hx hy = hx
  FailsBy-if F false x y hx hy = hy

  Catches-rpc_answer :
      (fid : ℕ) (payload : Bytes) (count : ℕ) → Catches env (rpc_answer env fid payload count)
  Catches-rpc_answer fid payload count = elim (Bool-cases (count == length payload)) [
    | inl whole ↦ rw whole (Catches-attempt env _)
    | inr short ↦ rw short (Catches-return env _)
  ]

  -- A failed step of a listing: the stat of the fid, or its open.
  abbrev pub ListFails : ℕ → Failure
  ListFails fid e c' =
      (before : BlockingClient S) × ((stat env fid before ≡ some (err e, c'))
        ⊎ (open_ env fid oread before ≡ some (err e, c')))

  -- A failed step of an exchange: the write of the request.
  abbrev pub RpcFails : Bytes → ℕ → Failure
  RpcFails payload fid e c' =
      (before : BlockingClient S) × (write env fid 0 payload before ≡ some (err e, c'))

  FailsBy-list_opened :
      (fid : ℕ) (entry : Stat) → FailsBy (ListFails fid) (list_opened env fid entry)
  FailsBy-list_opened fid entry =
      FailsBy-if (ListFails fid) (bit_and entry.mode dmdir == 0) _ _
        (FailsBy-Catches _ _ (Catches-return env _))
        (FailsBy-bind (ListFails fid) _ _ (record { fails = λ c c' e h. (c, inr h) })
          (λ qid. Catches-attempt env _))

  FailsBy-rpc_opened :
      (fid : ℕ) (payload : Bytes) (opened : Result Qid)
      → FailsBy (RpcFails payload fid) (rpc_opened env fid payload opened)
  FailsBy-rpc_opened fid payload (ok qid) =
      FailsBy-bind (RpcFails payload fid) _ _ (record { fails = λ c c' e h. (c, h) })
        (λ count. Catches-rpc_answer fid payload count)
  FailsBy-rpc_opened fid payload (err e) = FailsBy-Catches _ _ (Catches-return env _)

  -- Listing a directory and an exchange with a file by their path end with the clunk of the fid that they
  -- walked to; or the walk has failed; or a listing returns the error of the stat or the open, and an
  -- exchange that of the write, and the client stands just behind that step.
  pub early_paths-EndsEarly :
      (path payload : Bytes)
      → EndsEarly path ListFails (list_path env path)
        × EndsEarly path (RpcFails payload) (rpc_path env path payload)
  unfolding list_path rpc_path
  early_paths-EndsEarly path payload = (
    EndsEarly-walk path ListFails _ λ fid.
        Ends-bind (ListFails fid) fid _ _ (record { fails = λ c c' e h. (c, inl h) })
          (λ entry.
            Ends-bind (ListFails fid) fid _ _ (FailsBy-list_opened fid entry)
              (λ result. Ends-Clunks (ListFails fid) fid _ (Clunks-ignore env fid result))),
    EndsEarly-walk path (RpcFails payload) _ λ fid.
        Ends-bind (RpcFails payload fid) fid _ _ (FailsBy-Catches _ _ (Catches-attempt env _))
          (λ opened.
            Ends-bind (RpcFails payload fid) fid _ _ (FailsBy-rpc_opened fid payload opened)
              (λ result. Ends-Clunks (RpcFails payload fid) fid _ (Clunks-ignore env fid result))),
  )
