-- ===== src/Hosts/Polled/Followed.antt =====
-- What the polling of src/main_hid.c does to the active address.
use esp32s3tinyepaper.Base.{ℕ, zero, suc, ◌-◌, ◌≡◌, refl, ap, Bool, true, List, inl, take}
use esp32s3tinyepaper.Base.Result.{◌>>◌}
use esp32s3tinyepaper.Base.Result.Ends.{
  Ends, if-Ends, pure-Ends, with_state-Ends, bind-Ends, modify-Ends, ignore-Ends,
}
use esp32s3tinyepaper.Serv.Store.{Flash}
use esp32s3tinyepaper.Serv.Active.{Net, serv_addr_try_promote}
use esp32s3tinyepaper.Hosts.{Disk, HostsState, hosts_buf_size, on_serv}
use esp32s3tinyepaper.Hosts.Refresh.{is_new_value}
use esp32s3tinyepaper.Hosts.Followed.{
  settled, Gives, Follows, Same, Same-Follows, read-Same, promoted-Follows, keep_value-Follows,
  mounted-Follows,
}
use esp32s3tinyepaper.Hosts.Chosen.{Chosen, same_address-Chosen, Follows-Chosen}
use esp32s3tinyepaper.Hosts.Polled.{
  hosts_poll_interval_ms, take_changed, remount_changed, refresh_hosts_if_changed, poll_rounds,
}

-- Every text is a candidate.
abbrev pub any_text : List ℕ → Bool
any_text value = true

module _ {D F N A : Type 0} (disk : Disk D) (flash : Flash F) (net : Net N A) where
  take_changed-Follows :
      (s : HostsState D F N) (value : List ℕ) (t : HostsState D F N)
      → Same disk flash net any_text s t
      → Gives disk flash net any_text s value
      → Ends
          (λ _ u. Follows disk flash net any_text s u)
          (λ _ u. Follows disk flash net any_text s u)
          (take_changed disk flash net value)
          t
  unfolding take_changed
  take_changed-Follows s value t h known = with_state-Ends _ (
      if-Ends (is_new_value t.host_value_valid t.last_host_value value)
        (λ new. ignore-Ends (on_serv (serv_addr_try_promote flash net value)) (
          keep_value-Follows disk flash net any_text s (take (hosts_buf_size - 1) value) _
            (settled (promoted-Follows disk flash net any_text s value t h known refl))))
        (λ old. pure-Ends (Same-Follows disk flash net any_text s t h)))

  remount_changed-Follows :
      (s : HostsState D F N)
      → Ends
          (λ _ u. Follows disk flash net any_text s u)
          (λ _ u. Follows disk flash net any_text s u)
          (remount_changed disk flash net)
          s
  unfolding remount_changed
  remount_changed-Follows s =
      mounted-Follows disk flash net any_text s _
        (λ v h.
          bind-Ends (read-Same disk flash net any_text s v h)
            (λ value u (k, known). take_changed-Follows s value u k known))
        s refl

  refresh-Chosen :
      (s t : HostsState D F N)
      → Chosen disk flash net any_text s t
      → Chosen disk flash net any_text s (refresh_hosts_if_changed disk flash net t).1
  unfolding refresh_hosts_if_changed
  refresh-Chosen s t h =
      Follows-Chosen disk flash net any_text s t (remount_changed disk flash net t).1 h
        (settled (remount_changed-Follows t))

  rounds-Chosen :
      (sleep : ℕ → HostsState D F N → HostsState D F N)
      → ((ms : ℕ) (u : HostsState D F N) → (sleep ms u).serv ≡ u.serv)
      → (rounds : ℕ) (s t : HostsState D F N) → Chosen disk flash net any_text s t
      → Ends
          (λ _ u. Chosen disk flash net any_text s u)
          (λ _ u. ⊥)
          (poll_rounds disk flash net sleep rounds)
          t
  unfolding poll_rounds
  rounds-Chosen sleep keeps zero s t h = pure-Ends h
  rounds-Chosen sleep keeps (suc rounds) s t h = modify-Ends (
      ignored (
        rounds-Chosen sleep keeps rounds s
          (refresh_hosts_if_changed disk flash net (sleep hosts_poll_interval_ms t)).1
          (refresh-Chosen s (sleep hosts_poll_interval_ms t) (
            same_address-Chosen disk flash net any_text s t (sleep hosts_poll_interval_ms t)
              (ap (λ v. v.active_addr) (keeps hosts_poll_interval_ms t)) h))))
    where
      ignored :
          {u : HostsState D F N}
          → Ends
              (λ _ u. Chosen disk flash net any_text s u)
              (λ _ u. ⊥)
              (poll_rounds disk flash net sleep rounds)
              (refresh_hosts_if_changed disk flash net u).1
          → Ends
              (λ _ u. Chosen disk flash net any_text s u)
              (λ _ u. ⊥)
              (refresh_hosts_if_changed disk flash net >> poll_rounds disk flash net sleep rounds)
              u
      ignored {u} k = record { ended = unfold refresh_hosts_if_changed in k.ended }

  -- After any number of rounds of the polling, where nothing else changes the server address while the
  -- loop sleeps, the loop goes on, and the active address is the one before them, or the cleaned text of a
  -- reading of hosts.txt, not empty, that answered a connection attempt.
  pub poll_rounds-Chosen :
      (sleep : ℕ → HostsState D F N → HostsState D F N)
      → ((ms : ℕ) (u : HostsState D F N) → (sleep ms u).serv ≡ u.serv)
      → (rounds : ℕ) (s : HostsState D F N)
      → Ends
          (λ _ t. Chosen disk flash net any_text s t)
          (λ _ t. ⊥)
          (poll_rounds disk flash net sleep rounds)
          s
  poll_rounds-Chosen sleep keeps rounds s = rounds-Chosen sleep keeps rounds s s (inl refl)
