-- ===== src/Hosts/Runs/Chosen.antt =====
-- Where the active address comes from, over the endless loop of src/main_ec801e_hid.c.
use esp32s3tinyepaper.Base.{ℕ, zero, suc, ◌-◌, ◌+◌, ◌≡◌, refl, sym, subst, ap, inl, inr, ◌||◌, leb}
use esp32s3tinyepaper.Base.Result.{Action, pure, ◌>>=◌}
use esp32s3tinyepaper.Base.Result.Ends.{
  Ends, weaken-Ends, if-Ends, pure-Ends, with_state-Ends, then-Ends, bind-Ends, modify-Ends,
}
use esp32s3tinyepaper.Serv.Store.{Flash}
use esp32s3tinyepaper.Serv.Active.{Net}
use esp32s3tinyepaper.Hosts.{Disk, App}
use esp32s3tinyepaper.Hosts.Files.{hosts_addr_is_valid}
use esp32s3tinyepaper.Hosts.Guarded.{refresh_hosts_if_needed-Follows}
use esp32s3tinyepaper.Hosts.Chosen.{Chosen, same_address-Chosen, Follows-Chosen}
use esp32s3tinyepaper.Hosts.Runs.{
  get_uptime, report_waits, report, refresh_if_asked, report_if_due, end_round, round_at,
  main_round, main_rounds, gpsec_retries, gpsec_retry_backoff_ms, drone_report_interval_ms,
  main_loop_sleep_ms,
}

module _ {D F N A : Type 0} (disk : Disk D) (flash : Flash F) (net : Net N A)
    (sleep : ℕ → App D F N → App D F N) (uptime : App D F N → ℕ × App D F N)
    (sleep_keeps : (ms : ℕ) (u : App D F N) → (sleep ms u).hosts.serv ≡ u.hosts.serv)
    (uptime_keeps : (u : App D F N) → (uptime u).1.hosts.serv ≡ u.hosts.serv) (s : App D F N) where
  -- The active address, by that at the start of the loop.
  abbrev Good : App D F N → Type 0
  Good t = Chosen disk flash net hosts_addr_is_valid s.hosts t.hosts

  Steady : {B : Type 0} → Action (App D F N) B → App D F N → Type 0
  Steady m t = Ends (λ _ u. Good u) (λ _ u. ⊥) m t

  kept : (t u : App D F N) → u.hosts.serv ≡ t.hosts.serv → Good t → Good u
  kept t u same h =
      same_address-Chosen disk flash net hosts_addr_is_valid s.hosts t.hosts u.hosts
        (ap (λ v. v.active_addr) same) h

  after_sleep : (ms : ℕ) (t : App D F N) → Good t → Good (sleep ms t)
  after_sleep ms t h = kept t (sleep ms t) (sleep_keeps ms t) h

  get_uptime-Steady : (t : App D F N) → Good t → Steady (get_uptime disk flash net sleep uptime) t
  unfolding Steady get_uptime
  get_uptime-Steady t h = record { ended = kept t (uptime t).1 (uptime_keeps t) h }

  report_waits-Steady :
      (left : ℕ) (t : App D F N) → Good t → Steady (report_waits disk flash net sleep uptime left) t
  unfolding Steady report_waits
  report_waits-Steady zero t h = pure-Ends h
  report_waits-Steady (suc left) t h =
      modify-Ends (report_waits-Steady left _ (after_sleep gpsec_retry_backoff_ms t h))

  -- The end of a report.
  report_time-Steady :
      (t : App D F N)
      → Good t
      → Steady
          (get_uptime disk flash net sleep uptime
            >>= (λ now. pure (now + drone_report_interval_ms)))
          t
  unfolding Steady
  report_time-Steady t h =
      bind-Ends {f = λ now. pure (now + drone_report_interval_ms)} (get_uptime-Steady t h)
        (λ now v l. pure-Ends l)

  report-Steady : (t : App D F N) → Good t → Steady (report disk flash net sleep uptime) t
  unfolding Steady report
  report-Steady t h =
      then-Ends (report_waits-Steady (gpsec_retries - 1) t h) (λ a u k. report_time-Steady u k)

  refresh_if_asked-Steady :
      (t : App D F N) → Good t → Steady (refresh_if_asked disk flash net sleep uptime) t
  unfolding Steady refresh_if_asked
  refresh_if_asked-Steady t h = with_state-Ends _ (
      if-Ends (t.usb_host_connected || t.hosts_refresh_pending)
        (λ asked.
          weaken-Ends (refresh_hosts_if_needed-Follows disk flash net t)
            (λ a u k. elim k [
              | inl (idle, same) ↦ subst Good (sym same) h
              | inr (due, cleared, checked) ↦
                  Follows-Chosen disk flash net hosts_addr_is_valid s.hosts t.hosts u.hosts h
                    checked
            ])
            (λ e u k. k))
        (λ idle. pure-Ends h))

  report_if_due-Steady :
      (next_report_at now : ℕ) (t : App D F N)
      → Good t
      → Steady (report_if_due disk flash net sleep uptime next_report_at now) t
  unfolding Steady report_if_due
  report_if_due-Steady next_report_at now t h =
      if-Ends (leb next_report_at now) (λ due. report-Steady t h) (λ early. pure-Ends h)

  end_round-Steady :
      (next : ℕ) (t : App D F N) → Good t → Steady (end_round disk flash net sleep uptime next) t
  unfolding Steady end_round
  end_round-Steady next t h = modify-Ends (pure-Ends (after_sleep main_loop_sleep_ms t h))

  round_at-Steady :
      (next_report_at now : ℕ) (t : App D F N)
      → Good t
      → Steady (round_at disk flash net sleep uptime next_report_at now) t
  unfolding Steady round_at
  round_at-Steady next_report_at now t h =
      then-Ends
        {k = report_if_due disk flash net sleep uptime next_report_at now
          >>= end_round disk flash net sleep uptime}
        (refresh_if_asked-Steady t h)
        (λ a u k.
          bind-Ends {f = end_round disk flash net sleep uptime}
            (report_if_due-Steady next_report_at now u k) (λ next v l. end_round-Steady next v l))

  main_round-Steady :
      (next_report_at : ℕ) (t : App D F N)
      → Good t
      → Steady (main_round disk flash net sleep uptime next_report_at) t
  unfolding Steady main_round
  main_round-Steady next_report_at t h =
      bind-Ends {f = round_at disk flash net sleep uptime next_report_at} (get_uptime-Steady t h)
        (λ now u k. round_at-Steady next_report_at now u k)

  rounds-Steady :
      (rounds next_report_at : ℕ) (t : App D F N)
      → Good t
      → Steady (main_rounds disk flash net sleep uptime rounds next_report_at) t
  unfolding Steady main_rounds
  rounds-Steady zero next_report_at t h = pure-Ends h
  rounds-Steady (suc rounds) next_report_at t h =
      bind-Ends {f = main_rounds disk flash net sleep uptime rounds}
        (main_round-Steady next_report_at t h) (λ next u k. rounds-Steady rounds next u k)

  -- After any number of rounds of the endless loop, where neither the clock nor what runs while the loop
  -- sleeps changes the server address, the loop goes on, and the active address is the one before them,
  -- or the cleaned text of a reading of hosts.txt that is an address "host:port" and answered a connection
  -- attempt.
  pub main_rounds-Chosen :
      (rounds next_report_at : ℕ)
      → Ends
          (λ _ t. Chosen disk flash net hosts_addr_is_valid s.hosts t.hosts)
          (λ _ t. ⊥)
          (main_rounds disk flash net sleep uptime rounds next_report_at)
          s
  unfolding Steady
  main_rounds-Chosen rounds next_report_at = rounds-Steady rounds next_report_at s (inl refl)
