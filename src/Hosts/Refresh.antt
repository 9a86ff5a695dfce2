-- ===== src/Hosts/Refresh.antt =====
-- `refresh_hosts_if_needed` and a round of `consumer_thread` of src/main_ec801e_hid.c.
use esp32s3tinyepaper.Base.{
  ℕ, zero, suc, ◌-◌, Bool, false, not, ◌||◌, List, Option, none, some, ◌==◌, if◌then◌else◌, length,
  take,
}
use esp32s3tinyepaper.Base.Result.{
  Result, ok, err, enoent, Action, pure, raise, modify, with_state, attempt, ignore, ◌>>=◌, ◌>>◌,
}
use esp32s3tinyepaper.Serv.Address.{parse_host_port}
use esp32s3tinyepaper.Serv.Store.{Flash}
use esp32s3tinyepaper.Serv.Active.{Net, same_text, serv_addr_try_promote}
use esp32s3tinyepaper.Hosts.{Disk, HostsState, App, hosts_buf_size, on_disk, on_serv, on_hosts}
use esp32s3tinyepaper.Hosts.Files.{hosts_addr_is_valid, host_room, read_hosts, keep_value}

-- Whether the text differs from the last one that was read.
unfoldable pub is_new_value : Bool → List ℕ → List ℕ → Bool
is_new_value valid last value = not valid || not (same_text value last)

module _ {D F N A : Type 0} (disk : Disk D) (flash : Flash F) (net : Net N A) where
  -- An empty text and one that is no address keep the active address.
  unfoldable pub promote : List ℕ → Action (HostsState D F N) (Unit {0})
  promote value =
      if length value == 0
      then pure tt
      else if not (hosts_addr_is_valid value)
      then pure tt
      else ignore (on_serv (serv_addr_try_promote flash net value))

  -- What is done with the text of the file.
  unfoldable pub take_value : List ℕ → Action (HostsState D F N) (Unit {0})
  take_value value = with_state (λ s.
      if is_new_value s.host_value_valid s.last_host_value value
      then (do promote value; keep_value disk flash net (take (hosts_buf_size - 1) value))
      else pure tt)

  -- The file is read a second time, unless it is missing.
  unfoldable pub read_again : Result (List ℕ) → Action (HostsState D F N) (Unit {0})
  read_again (err enoent) = raise enoent
  read_again r = do value ← on_disk (read_hosts disk hosts_buf_size); take_value value

  -- The steps after the flag; a failure of one ends them.
  unfoldable pub remount : Action (HostsState D F N) (Unit {0})
  remount = do
    ignore (on_disk disk.ioctl_sync)
    on_disk disk.unmount
    on_disk disk.mount
    r ← attempt (on_disk (read_hosts disk hosts_buf_size))
    read_again r

  -- The function gives nothing back: every failure just ends it.
  unfoldable pub refresh_hosts_if_needed : Action (App D F N) (Unit {0})
  refresh_hosts_if_needed = with_state (λ s.
      if not s.hosts_refresh_pending
      then pure tt
      else (do modify (λ t. record t { hosts_refresh_pending = false }); ignore (on_hosts remount)))

  unfoldable pub set_server : Option (List ℕ × ℕ) → Action (App D F N) (Unit {0})
  set_server none = pure tt
  set_server (some (host, port)) = modify (λ s. record s { serv_ip = host; serv_port = port })

  unfoldable pub after_event : Result (List ℕ) → Action (App D F N) (Unit {0})
  after_event (err e) = pure tt
  after_event (ok value) = set_server (parse_host_port value host_room)

  -- A round of the thread, once it took the semaphore. `serv_ip` is the text: the pointer is to a buffer
  -- of that round.
  unfoldable pub consume_event : Action (App D F N) (Unit {0})
  consume_event = do
    r ← attempt (on_hosts (on_disk (read_hosts disk hosts_buf_size)))
    after_event r

  unfoldable pub take_from : ℕ → App D F N → Option (App D F N)
  take_from zero s = none
  take_from (suc count) s = some (record s { sync_sem = count })

  -- `k_sem_take` with K_FOREVER: the count is lowered, or the thread waits.
  unfoldable pub k_sem_take : App D F N → Option (App D F N)
  k_sem_take s = take_from s.sync_sem s

  -- The loop's condition and a round, or none where the thread waits.
  unfoldable pub consumer_thread : App D F N → Option (App D F N)
  consumer_thread s = elim (k_sem_take s) [ none ↦ none | some t ↦ some (consume_event t).1 ]
