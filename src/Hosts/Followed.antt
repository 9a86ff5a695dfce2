-- ===== src/Hosts/Followed.antt =====
-- What a reading of hosts.txt may do to the active address, for the two applications that read it.
use esp32s3tinyepaper.Base.{ℕ, ◌≡◌, refl, sym, subst, ap, ◌⊎◌, inl, inr, Bool, true, List, []}
use esp32s3tinyepaper.Base.Result.{Result, ok, err, Action, ignore, ◌>>◌}
use esp32s3tinyepaper.Base.Result.Ends.{Ended, Ends, then-Ends, done-Ends, ignore-Ends}
use esp32s3tinyepaper.Serv.Store.{Flash}
use esp32s3tinyepaper.Serv.Active.{Net, Serv, serv_addr_try_promote}
use esp32s3tinyepaper.Serv.Active.Guarded.{Promoted, Kept, serv_addr_try_promote-Promoted}
use esp32s3tinyepaper.Hosts.{Disk, HostsState, hosts_buf_size, on_disk, on_serv}
use esp32s3tinyepaper.Hosts.Files.{read_hosts, keep_value}

-- What holds however an action ends holds of the state it leaves.
pub settled :
    {S A : Type 0} {I : S → Type 0} {m : Action S A} {s : S}
    → Ends (λ _ t. I t) (λ _ t. I t) m s
    → I (m s).1
settled {S} {A} {I} {m} {s} h = go (m s) h.ended
  where
    go : (r : Result A × S) → Ended (λ _ t. I t) (λ _ t. I t) r → I r.1
    go (ok a, t) k = k
    go (err e, t) k = k

module _ {D F N A : Type 0} (disk : Disk D) (flash : Flash F) (net : Net N A)
    (accepted : List ℕ → Bool) (s : HostsState D F N) where
  -- Some reading of the file gives this text.
  abbrev pub Gives : List ℕ → Type 0
  Gives value = (d : D) × ((read_hosts disk hosts_buf_size d).0 ≡ ok value)

  -- The address stays, or hosts.txt held one that was accepted and promoted.
  abbrev pub Follows : HostsState D F N → Type 0
  Follows t =
      Kept flash net [] s.serv t.serv
      ⊎ ((value : List ℕ) × Gives value
          × (accepted value ≡ true)
          × Promoted flash net value s.serv t.serv)

  -- Before the text is looked at.
  abbrev pub Same : HostsState D F N → Type 0
  Same t = t.serv ≡ s.serv

  pub Same-Follows : (t : HostsState D F N) → Same t → Follows t
  Same-Follows t same = inl (ap (λ v. v.active_addr) same, ap (λ v. v.active_valid) same)

  pub on_disk-Same :
      {B : Type 0} (m : Action D B) (t : HostsState D F N)
      → Same t
      → Ends (λ _ u. Same u) (λ _ u. Follows u) (on_disk m) t
  unfolding on_disk
  on_disk-Same {B} m t h = record { ended = go (m t.disk) }
    where
      go :
          (r : Result B × D)
          → Ended (λ _ u. Same u) (λ _ u. Follows u) (r.0, record t { disk = r.1 })
      go (ok b, d) = h
      go (err e, d) = Same-Follows (record t { disk = d }) h

  -- A read, with the text that it gave.
  pub read-Same :
      (t : HostsState D F N)
      → Same t
      → Ends
          (λ value u. Same u × Gives value)
          (λ _ u. Follows u)
          (on_disk (read_hosts disk hosts_buf_size))
          t
  unfolding on_disk
  read-Same t h = record {
    ended = go (read_hosts disk hosts_buf_size t.disk) (λ value e. (t.disk, e));
  }
    where
      go :
          (r : Result (List ℕ) × D)
          → ((value : List ℕ) → r.0 ≡ ok value → Gives value)
          → Ended
              (λ value u. Same u × Gives value)
              (λ _ u. Follows u)
              (r.0, record t { disk = r.1 })
      go (ok value, d) known = (h, known value refl)
      go (err e, d) known = Same-Follows (record t { disk = d }) h

  pub promoted-Follows :
      (value : List ℕ) (t : HostsState D F N)
      → Same t
      → Gives value
      → accepted value ≡ true
      → Ends
          (λ _ u. Follows u)
          (λ _ u. Follows u)
          (on_serv (serv_addr_try_promote flash net value))
          t
  unfolding on_serv
  promoted-Follows value t same known fine = record {
    ended = go (serv_addr_try_promote flash net value t.serv) (
        subst
          (λ v.
            Ended (λ _ u. Promoted flash net value s.serv u) (λ _ u. Kept flash net value s.serv u)
              (serv_addr_try_promote flash net value v))
          (sym same) (serv_addr_try_promote-Promoted flash net value s.serv).ended);
  }
    where
      go :
          (r : Result (Unit {0}) × Serv F N)
          → Ended
              (λ _ u. Promoted flash net value s.serv u)
              (λ _ u. Kept flash net value s.serv u)
              r
          → Ended (λ _ u. Follows u) (λ _ u. Follows u) (r.0, record t { serv = r.1 })
      go (ok a, v) k = inr (value, known, fine, k)
      go (err e, v) k = inl k

  pub keep_value-Follows :
      (value : List ℕ) (t : HostsState D F N)
      → Follows t
      → Ends (λ _ u. Follows u) (λ _ u. Follows u) (keep_value disk flash net value) t
  unfolding keep_value
  keep_value-Follows value t h = done-Ends h

  ignored-Same : (m : Action D (Unit {0})) (t : HostsState D F N) → Same t → Same (on_disk m t).1
  unfolding on_disk
  ignored-Same m t h = h

  -- The disk is mounted anew, and then what follows is done.
  pub mounted-Follows :
      (m : Action (HostsState D F N) (Unit {0}))
      → ((t : HostsState D F N) → Same t → Ends (λ _ u. Follows u) (λ _ u. Follows u) m t)
      → (t : HostsState D F N) → Same t
      → Ends
          (λ _ u. Follows u)
          (λ _ u. Follows u)
          (ignore (on_disk disk.ioctl_sync) >> (on_disk disk.unmount >> (on_disk disk.mount >> m)))
          t
  mounted-Follows m then_follows t h = ignore-Ends (on_disk disk.ioctl_sync) (
      then-Ends (on_disk-Same disk.unmount _ (ignored-Same disk.ioctl_sync t h))
        (λ a u h. then-Ends (on_disk-Same disk.mount u h) (λ b v h. then_follows v h)))
