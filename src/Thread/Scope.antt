-- ===== src/Thread/Scope.antt =====
-- `ScopeLock` of Core/Thread/ScopLock.h, in its configuration for Linux, which Core/Public/marco.h
-- sets.
--
-- The mutexes are a memory of states of a type `S`; the functions of pthread on them are parameters.
use septem_cpp.Common.{
  ℕ, ◌≡◌, ◌≢◌, refl, sym, ap, ◌∙◌, List, [], ◌∷◌, Option, none, some, map, get, get_elem?, set,
  Access, fault, abort, done, ◌>>=◌, get-done_of, get_elem?-set_self, get_elem?-set_ne,
  get_elem?-eq-some_lt, zero, suc,
}

-- `pthread_mutex_lock` and `pthread_mutex_unlock` on the state of a mutex.
pub record Mutex (S : Type 0) : Type 0 where
  pub mutex_lock : S → Access S
  pub mutex_unlock : S → Access S

-- What POSIX says of a mutex that no other thread uses: a free one is taken by `lock`, and `unlock`
-- by the thread that took it makes it free. To lock it twice, or to unlock a free one, is undefined.
pub record IsMutex {S : Type 0} (m : Mutex S) (free taken : S) : Type 0 where
  pub lock_free : m.mutex_lock free ≡ done taken
  pub lock_taken : m.mutex_lock taken ≡ fault
  pub unlock_taken : m.mutex_unlock taken ≡ done free
  pub unlock_free : m.mutex_unlock free ≡ fault

module _ {S : Type 0} (m : Mutex S) where
  -- The constructor: the `check` of the pointer, and the lock.
  unfoldable pub scope_lock : Option ℕ → List S → Access (List S)
  scope_lock none locks = abort
  scope_lock (some l) locks = do s ← get locks l; t ← m.mutex_lock s; done (set locks l t)

  -- The destructor.
  unfoldable pub scope_unlock : Option ℕ → List S → Access (List S)
  scope_unlock none locks = abort
  scope_unlock (some l) locks = do s ← get locks l; t ← m.mutex_unlock s; done (set locks l t)

  -- A block that starts with a `ScopeLock`.
  unfoldable pub locked_block :
      {A : Type 0} → Option ℕ → (List S → Access (A × List S)) → List S → Access (A × List S)
  unfolding scope_lock scope_unlock
  locked_block lock_object body locks = do
    inside ← scope_lock lock_object locks
    r ← body inside
    after ← scope_unlock lock_object (r.1)
    done (r.0, after)

  -- Blocks in each other, the first pointer's the outermost.
  unfoldable pub nested_blocks :
      {A : Type 0} → List (Option ℕ) → (List S → Access (A × List S)) → List S → Access (A × List S)
  unfolding locked_block
  nested_blocks [] body locks = body locks
  nested_blocks (l ∷ ls) body locks = locked_block l (nested_blocks ls body) locks

-- No mutex of the list is `x`, and none stands in the list twice.
abbrev pub IsAbsent : ℕ → List ℕ → Type 0
IsAbsent x [] = Unit
IsAbsent x (y ∷ ys) = (x ≢ y) × IsAbsent x ys

abbrev pub IsDistinct : List ℕ → Type 0
IsDistinct [] = Unit
IsDistinct (x ∷ xs) = IsAbsent x xs × IsDistinct xs

module _ {S : Type 0} where
  -- All mutexes of the list are in the state `free`.
  abbrev pub AllFree : S → List ℕ → List S → Type 0
  AllFree free [] locks = Unit
  AllFree free (l ∷ ls) locks = (get_elem? locks l ≡ some free) × AllFree free ls locks

  -- The memory with the mutexes of the list in the state `taken`.
  unfoldable pub take_all_locks : S → List ℕ → List S → List S
  take_all_locks taken [] locks = locks
  take_all_locks taken (l ∷ ls) locks = take_all_locks taken ls (set locks l taken)

  set-back :
      (locks : List S) (l : ℕ) (x y : S)
      → get_elem? locks l ≡ some x
      → set (set locks l y) l x ≡ locks
  set-back [] l x y h = refl
  set-back (z ∷ zs) zero x y h = let e : z ≡ x = cc in ap (λ q. q ∷ zs) (sym e)
  set-back (z ∷ zs) (suc l) x y h = ap (λ r. z ∷ r) (set-back zs l x y h)

  set-AllFree :
      (free taken : S) (l : ℕ) (ls : List ℕ) (locks : List S)
      → IsAbsent l ls
      → AllFree free ls locks
      → AllFree free ls (set locks l taken)
  set-AllFree free taken l [] locks a w = tt
  set-AllFree free taken l (k ∷ ks) locks (ne, a) (h, w) =
      (get_elem?-set_ne locks l k taken ne ∙ h, set-AllFree free taken l ks locks a w)

module _ {S A : Type 0} (m : Mutex S) (free taken : S) (w : IsMutex m free taken) (a : A)
    (body : List S → Access (A × List S)) where
  -- A block whose body ran with the mutex taken and left the mutexes as they were.
  block_returns :
      (l : ℕ) (locks : List S)
      → get_elem? locks l ≡ some free
      → body (set locks l taken) ≡ done (a, set locks l taken)
      → locked_block m (some l) body locks ≡ done (a, locks)
  unfolding locked_block scope_lock scope_unlock
  block_returns l locks h ran =
      let held = get_elem?-set_self locks l taken (get_elem?-eq-some_lt locks l h) in
      rw
        (
          get-done_of locks l free h,
          ◌>>=◌,
          w.lock_free,
          ◌>>=◌,
          ran,
          ◌>>=◌,
          get-done_of (set locks l taken) l taken held,
          ◌>>=◌,
          w.unlock_taken,
          ◌>>=◌,
          set-back locks l free taken h,
        )
        refl

  block_deadlocks :
      (l : ℕ) (locks : List S)
      → get_elem? locks l ≡ some taken
      → locked_block m (some l) body locks ≡ fault
  unfolding locked_block scope_lock
  block_deadlocks l locks h = rw (get-done_of locks l taken h, ◌>>=◌, w.lock_taken) refl

module _ {S A : Type 0} (m : Mutex S) (free taken : S) (w : IsMutex m free taken) (a : A)
    (body : List S → Access (A × List S)) where
  -- Blocks in each other that start with a ScopeLock on different free mutexes run a body with
  -- all of them taken, and when the body returns without changing them, all are free again.
  pub nested_blocks-done :
      (ls : List ℕ) (locks : List S)
      → IsDistinct ls
      → AllFree free ls locks
      → body (take_all_locks taken ls locks) ≡ done (a, take_all_locks taken ls locks)
      → nested_blocks m (map some ls) body locks ≡ done (a, locks)
  unfolding nested_blocks take_all_locks
  nested_blocks-done [] locks d f ran = ran
  nested_blocks-done (l ∷ ls) locks (absent, d) (h, f) ran =
      block_returns m free taken w a (nested_blocks m (map some ls) body) l locks h (
        nested_blocks-done ls (set locks l taken) d (set-AllFree free taken l ls locks absent f)
          ran)
