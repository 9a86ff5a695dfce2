-- ===== src/Hosts/Guarded.antt =====
-- What a refresh of src/main_ec801e_hid.c does to the active address.
use esp32s3tinyepaper.Base.{
  arith, ℕ, ◌-◌, ◌≡◌, refl, sym, ◌⊎◌, inl, inr, Bool, true, false, not, List, ◌==◌, length, take,
}
use esp32s3tinyepaper.Base.Result.{Result, err, enoent, ignore, raise, ◌>>=◌}
use esp32s3tinyepaper.Base.Result.Ends.{
  Ends, if-Ends, pure-Ends, raise-Ends, with_state-Ends, then-Ends, bind-Ends, attempt-Ends,
  modify-Ends,
}
use esp32s3tinyepaper.Serv.Store.{Flash}
use esp32s3tinyepaper.Serv.Active.{Net}
use esp32s3tinyepaper.Hosts.{Disk, HostsState, App, hosts_buf_size, on_disk, on_hosts}
use esp32s3tinyepaper.Hosts.Files.{hosts_addr_is_valid, read_hosts}
use esp32s3tinyepaper.Hosts.Refresh.{
  is_new_value, promote, take_value, read_again, remount, refresh_hosts_if_needed,
}
use esp32s3tinyepaper.Hosts.Followed.{
  settled, Gives, Follows, Same, Same-Follows, read-Same, promoted-Follows, keep_value-Follows,
  mounted-Follows,
}

module _ {D F N A : Type 0} (disk : Disk D) (flash : Flash F) (net : Net N A)
    (s : HostsState D F N) where
  -- The address stays, or hosts.txt held a valid one that was promoted.
  abbrev pub Checked : HostsState D F N → Type 0
  Checked t = Follows disk flash net hosts_addr_is_valid s t

  promote-Follows :
      (value : List ℕ) (t : HostsState D F N)
      → Same disk flash net hosts_addr_is_valid s t
      → Gives disk flash net hosts_addr_is_valid s value
      → Ends (λ _ u. Checked u) (λ _ u. Checked u) (promote disk flash net value) t
  unfolding promote
  promote-Follows value t h known =
      if-Ends (length value == 0)
        (λ empty. pure-Ends (Same-Follows disk flash net hosts_addr_is_valid s t h))
        (λ text.
          if-Ends (not (hosts_addr_is_valid value))
            (λ bad. pure-Ends (Same-Follows disk flash net hosts_addr_is_valid s t h))
            (λ good. record {
              ended = settled (
                  promoted-Follows disk flash net hosts_addr_is_valid s value t h known
                    (not_false (hosts_addr_is_valid value) good));
            }))
    where
      not_false : (b : Bool) → not b ≡ false → b ≡ true
      not_false true e = refl
      not_false false e = sym e

  take_value-Follows :
      (value : List ℕ) (t : HostsState D F N)
      → Same disk flash net hosts_addr_is_valid s t
      → Gives disk flash net hosts_addr_is_valid s value
      → Ends (λ _ u. Checked u) (λ _ u. Checked u) (take_value disk flash net value) t
  unfolding take_value
  take_value-Follows value t h known = with_state-Ends _ (
      if-Ends (is_new_value t.host_value_valid t.last_host_value value)
        (λ new. then-Ends (promote-Follows value t h known) (λ a u k.
          keep_value-Follows disk flash net hosts_addr_is_valid s (take (hosts_buf_size - 1) value)
            u k))
        (λ old. pure-Ends (Same-Follows disk flash net hosts_addr_is_valid s t h)))

  read_then_take :
      (t : HostsState D F N)
      → Same disk flash net hosts_addr_is_valid s t
      → Ends
          (λ _ u. Checked u)
          (λ _ u. Checked u)
          (on_disk (read_hosts disk hosts_buf_size) >>= take_value disk flash net)
          t
  read_then_take t h =
      bind-Ends (read-Same disk flash net hosts_addr_is_valid s t h)
        (λ value u (k, known). take_value-Follows value u k known)

  read_again_cases :
      (r : Result (List ℕ))
      → (read_again disk flash net r ≡ raise enoent)
        ⊎ (read_again disk flash net r
            ≡ (on_disk (read_hosts disk hosts_buf_size) >>= take_value disk flash net))
  unfolding read_again
  read_again_cases (err enoent) = inl refl
  read_again_cases _ = inr refl

  read_again-Follows :
      (r : Result (List ℕ)) (t : HostsState D F N)
      → Same disk flash net hosts_addr_is_valid s t
      → Ends (λ _ u. Checked u) (λ _ u. Checked u) (read_again disk flash net r) t
  read_again-Follows r t h = elim (read_again_cases r) [
    | inl missing ↦ rw missing (raise-Ends (Same-Follows disk flash net hosts_addr_is_valid s t h))
    | inr there ↦ rw there (read_then_take t h)
  ]

  remount-Follows :
      (t : HostsState D F N)
      → Same disk flash net hosts_addr_is_valid s t
      → Ends (λ _ u. Checked u) (λ _ u. Checked u) (remount disk flash net) t
  unfolding remount
  remount-Follows t h =
      mounted-Follows disk flash net hosts_addr_is_valid s _
        (λ v h.
          attempt-Ends {g = on_disk (read_hosts disk hosts_buf_size)} (read_again disk flash net)
            (read_again-Follows _ _ (tried-Same v h)))
        t h
    where
      tried-Same :
          (v : HostsState D F N)
          → Same disk flash net hosts_addr_is_valid s v
          → Same disk flash net hosts_addr_is_valid s (on_disk (read_hosts disk hosts_buf_size) v).1
      tried-Same v h = unfold on_disk in h

module _ {D F N A : Type 0} (disk : Disk D) (flash : Flash F) (net : Net N A) (s : App D F N) where
  -- A refresh that was due clears its flag, whatever fails in it, and the active address stays as it was,
  -- or it is the cleaned text of hosts.txt: a text that was read from the file, that is an address
  -- "host:port", and that was active before, or answered and was saved. A refresh that was not due changes
  -- nothing.
  pub refresh_hosts_if_needed-Follows :
      Ends
        (λ _ t.
          ((s.hosts_refresh_pending ≡ false) × (t ≡ s))
          ⊎ ((s.hosts_refresh_pending ≡ true)
              × (t.hosts_refresh_pending ≡ false)
              × Checked disk flash net s.hosts t.hosts))
        (λ _ t. ⊥)
        (refresh_hosts_if_needed disk flash net)
        s
  unfolding refresh_hosts_if_needed on_hosts
  refresh_hosts_if_needed-Follows = with_state-Ends _ (
      if-Ends (not s.hosts_refresh_pending) (λ idle. pure-Ends (inl (not_true idle, refl)))
        (λ due.
          modify-Ends {g = λ t. record t { hosts_refresh_pending = false }}
            {m = ignore (on_hosts (remount disk flash net))}
            (record {
              ended = inr (
                not_false due,
                refl,
                settled (remount-Follows disk flash net s.hosts s.hosts refl),
              );
            })))
    where
      not_true : {b : Bool} → not b ≡ true → b ≡ false
      not_true h = grind arith

      not_false : {b : Bool} → not b ≡ false → b ≡ true
      not_false h = grind arith
