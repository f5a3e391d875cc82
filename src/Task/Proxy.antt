-- ===== src/Task/Proxy.antt =====
-- software/core/task/proxy_state.py: the proxies in use, those that worked once, and those that
-- rest after a failure.
pub mod Cooldown
mod Examples
use survey_controller.Common.{
  ℕ, zero, suc, ◌+◌, ◌-◌, max, ℤ, clamp_0, Bool, true, false, not, ◌&&◌, Option, none, some, List,
  [], ◌∷◌, ◌++◌, Text, text, strip, contains, leb, ltb, nat_beq, ◌==◌, if◌then◌else◌, or_zero,
  is_empty, text_eq,
}
use survey_controller.Common.Dict.{Dict, lookup, insert, erase}
use survey_controller.Common.PySet.{add}
use survey_controller.Task.Defs.{ExecutionState, ProxyLease, notify_runtime_change}

unfoldable pub register_proxy_waiter : ExecutionState → ExecutionState
register_proxy_waiter s = record s { proxy_waiting_threads = suc s.proxy_waiting_threads }

unfoldable pub unregister_proxy_waiter : ExecutionState → ExecutionState
unregister_proxy_waiter s = record s { proxy_waiting_threads = s.proxy_waiting_threads - 1 }

unfoldable pub mark_proxy_in_use : Text → ProxyLease → ExecutionState → ExecutionState
mark_proxy_in_use thread_name lease s = if is_empty (strip thread_name) then s else record s {
  proxy_in_use_by_thread = insert (strip thread_name) lease s.proxy_in_use_by_thread;
}

unfoldable pub release_proxy_in_use : Text → ExecutionState → ExecutionState × Option ProxyLease
release_proxy_in_use thread_name s =
    if is_empty (strip thread_name)
    then (s, none)
    else (let released = lookup (strip thread_name) s.proxy_in_use_by_thread in
        let popped = record s {
          proxy_in_use_by_thread = erase (strip thread_name) s.proxy_in_use_by_thread;
        } in
        (elim released [ none ↦ popped | some _ ↦ notify_runtime_change popped ], released))

-- The addresses whose time is over at `now`.
unfoldable pub expired_addresses : ℕ → Dict Text ℕ → List Text
expired_addresses now [] = []
expired_addresses now ((address, cooldown_until) ∷ m) =
    let rest = expired_addresses now m in if leb cooldown_until now then address ∷ rest else rest

unfoldable pub erase_all : List Text → Dict Text ℕ → Dict Text ℕ
erase_all [] m = m
erase_all (address ∷ addresses) m = erase_all addresses (erase address m)

unfoldable pub purge_expired_proxy_cooldowns : ℕ → ExecutionState → ExecutionState
purge_expired_proxy_cooldowns now s = record s {
  proxy_cooldown_until_by_address =
      erase_all (expired_addresses now s.proxy_cooldown_until_by_address)
        s.proxy_cooldown_until_by_address;
}

-- `proxy_cooldown_until_by_address.get(address, 0.0)`
abbrev pub cooldown_until : Text → ExecutionState → ℕ
cooldown_until address s = or_zero (lookup address s.proxy_cooldown_until_by_address)

unfoldable pub is_proxy_in_cooldown : Text → ℕ → ExecutionState → ExecutionState × Bool
is_proxy_in_cooldown proxy_address now s =
    if is_empty (strip proxy_address)
    then (s, false)
    else (let purged = purge_expired_proxy_cooldowns now s in
        (purged, ltb now (cooldown_until (strip proxy_address) purged)))

unfoldable pub mark_proxy_in_cooldown : Text → ℤ → ℕ → ExecutionState → ExecutionState
mark_proxy_in_cooldown proxy_address cooldown_seconds now s =
    if is_empty (strip proxy_address)
    then s
    else if nat_beq (clamp_0 cooldown_seconds) 0
    then s
    else notify_runtime_change (record s {
      proxy_cooldown_until_by_address =
          insert (strip proxy_address)
            (max (cooldown_until (strip proxy_address) s) (now + clamp_0 cooldown_seconds))
            s.proxy_cooldown_until_by_address;
    })

-- The addresses in use, but for one thread's; an empty name excludes none.
unfoldable pub active_addresses : Text → Dict Text ProxyLease → List Text
active_addresses excluded [] = []
active_addresses excluded ((thread_name, lease) ∷ m) =
    let rest = active_addresses excluded m in
    if not (is_empty excluded) && strip thread_name == excluded
    then rest
    else if is_empty (strip lease.address)
    then rest
    else add (strip lease.address) rest

unfoldable pub snapshot_active_proxy_addresses : Text → ExecutionState → List Text
snapshot_active_proxy_addresses exclude_thread_name s =
    active_addresses (strip exclude_thread_name) s.proxy_in_use_by_thread

unfoldable pub successful_addresses : List Text → List Text
successful_addresses [] = []
successful_addresses (address ∷ addresses) =
    let rest = successful_addresses addresses in
    if is_empty (strip address) then rest else add (strip address) rest

unfoldable pub snapshot_successful_proxy_addresses : ExecutionState → List Text
snapshot_successful_proxy_addresses s = successful_addresses s.successful_proxy_addresses

-- `a.update(b)`
unfoldable pub add_all : List Text → List Text → List Text
add_all [] b = b
add_all (address ∷ addresses) b = add address (add_all addresses b)

unfoldable pub snapshot_blocked_proxy_addresses : Text → ExecutionState → List Text
snapshot_blocked_proxy_addresses exclude_thread_name s =
    add_all (snapshot_successful_proxy_addresses s)
      (snapshot_active_proxy_addresses exclude_thread_name s)

unfoldable pub is_proxy_address_in_use : Text → Text → ExecutionState → Bool
is_proxy_address_in_use proxy_address exclude_thread_name s =
    if is_empty (strip proxy_address)
    then false
    else contains (strip proxy_address) (snapshot_active_proxy_addresses exclude_thread_name s)

unfoldable pub mark_successful_proxy_address : Text → ExecutionState → ExecutionState × Bool
mark_successful_proxy_address proxy_address s =
    if is_empty (strip proxy_address)
    then (s, false)
    else (let changed = not (contains (strip proxy_address) s.successful_proxy_addresses) in
        let added = record s {
          successful_proxy_addresses = add (strip proxy_address) s.successful_proxy_addresses;
        } in
        (if changed then notify_runtime_change added else added, changed))

unfoldable pub is_successful_proxy_address : Text → ExecutionState → Bool
is_successful_proxy_address proxy_address s =
    if is_empty (strip proxy_address)
    then false
    else contains (strip proxy_address) (snapshot_successful_proxy_addresses s)
