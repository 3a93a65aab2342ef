-- ===== src/State/Leases.antt =====
-- internal/state/memory_lease.go and lease.go: fenced leases with a time to live.
pub mod Fencing
pub mod Stale
pub mod Exclusion
pub mod Frame
mod Tests
use ouvrier.Base.{
  ◌>>◌, ◌>>=◌, ℕ, ◌+◌, ◌-◌, ◌%◌, String, Bool, true, false, not, ◌&&◌, none, some, List, ltb,
  nat_eq, ℤ, pos, negsuc, Result, ok, err, ◌==◌, if◌then◌else◌, lookup, insert, trim_space, values,
  sort, str_ltb, eq_string,
}
use ouvrier.State.Types.{
  Error, lease_name_required, lease_holder_required, lease_ttl_not_positive, Context, check_context,
  Lease, zero_lease, MemoryStore, Exec, uint64_mod, checked,
}

-- The trimmed name and holder, neither of them empty.
unfoldable pub normalize_lease_key : String → String → Result Error (String × String)
normalize_lease_key name holder =
    let name' = trim_space name in
    let holder' = trim_space holder in
    if name' == ""
    then err lease_name_required
    else if holder' == ""
    then err lease_holder_required
    else ok (name', holder')

-- A time.Duration is signed; the positive length comes back.
unfoldable pub validate_lease_ttl : ℤ → Result Error ℕ
validate_lease_ttl (negsuc n) = err lease_ttl_not_positive
validate_lease_ttl (pos n) = if nat_eq n 0 then err lease_ttl_not_positive else ok n

abbrev pub a_second : ℕ
a_second = 1_000_000_000

abbrev pub new_lease : String → String → ℕ → ℕ → ℕ → Lease
new_lease name holder fence now ttl = record {
  name = name;
  holder = holder;
  fence = fence;
  acquired_at = now;
  renewed_at = now;
  expires_at = now + ttl;
}

abbrev pub put_lease : Lease → MemoryStore → Result Error (Lease × Bool) × MemoryStore
put_lease lease s = (ok (lease, true), record s { leases = insert lease.name lease s.leases })

-- AcquireLease under the lock: a row that has not expired is never taken over.
acquire_locked : ℕ → String × String × ℕ → Exec (Lease × Bool)
acquire_locked now (name, holder, ttl) s = elim (lookup name s.leases) [
  | none ↦ put_lease (new_lease name holder 1 now ttl) s
  | some current ↦
      if not (ltb current.expires_at now)
      then (ok (current, false), s)
      else put_lease (new_lease name holder ((current.fence + 1) % uint64_mod) now ttl) s
]

unfoldable pub lease_args : Context → String → String → ℤ → Result Error (String × String × ℕ)
unfolding normalize_lease_key validate_lease_ttl check_context
lease_args ctx name holder ttl = do
  check_context ctx
  key ← normalize_lease_key name holder
  length ← validate_lease_ttl ttl
  ok (key.0, key.1, length)

unfoldable pub acquire_lease : Context → String → String → ℤ → ℕ → Exec (Lease × Bool)
unfolding acquire_locked lease_args
acquire_lease ctx name holder ttl now =
    checked (lease_args ctx name holder ttl) (acquire_locked now)

-- RenewLease under the lock: holder and fence must be those of the row; expiry does not matter.
renew_locked : ℕ → ℕ → String × String × ℕ → Exec (Lease × Bool)
renew_locked fence now (name, holder, ttl) s = elim (lookup name s.leases) [
  | none ↦ (ok (zero_lease, false), s)
  | some current ↦
      if current.holder == holder && nat_eq current.fence fence
      then (let renewed = record current { renewed_at = now; expires_at = now + ttl } in
          (ok (renewed, true), record s { leases = insert name renewed s.leases }))
      else (ok (current, false), s)
]

unfoldable pub renew_lease : Context → String → String → ℕ → ℤ → ℕ → Exec (Lease × Bool)
unfolding renew_locked lease_args
renew_lease ctx name holder fence ttl now =
    checked (lease_args ctx name holder ttl) (renew_locked fence now)

-- ReleaseLease under the lock: the row stays, expired a second ago.
release_locked : ℕ → ℕ → String × String → Exec (Unit {0})
release_locked fence now (name, holder) s = elim (lookup name s.leases) [
  | none ↦ (ok tt, s)
  | some current ↦
      if current.holder == holder && nat_eq current.fence fence
      then (
        ok tt,
        record s { leases = insert name (record current { expires_at = now - a_second }) s.leases },
      )
      else (ok tt, s)
]

unfoldable pub release_args : Context → String → String → Result Error (String × String)
unfolding normalize_lease_key check_context
release_args ctx name holder = do check_context ctx; normalize_lease_key name holder

unfoldable pub release_lease : Context → String → String → ℕ → ℕ → Exec (Unit {0})
unfolding release_locked release_args
release_lease ctx name holder fence now =
    checked (release_args ctx name holder) (release_locked fence now)

-- Leases: every row, sorted by name.
list_leases : Context → Exec (List Lease)
unfolding check_context
list_leases ctx =
    checked (check_context ctx)
      (λ _ s. (ok (sort (λ a b. str_ltb a.name b.name) (values s.leases)), s))
