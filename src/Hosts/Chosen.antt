-- ===== src/Hosts/Chosen.antt =====
-- Where the active address comes from, after any number of readings of hosts.txt.
use esp32s3tinyepaper.Base.{ℕ, ◌≡◌, ◌∙◌, ◌⊎◌, inl, inr, Bool, true, List, ◌<◌, length}
use esp32s3tinyepaper.Serv.Store.{Flash}
use esp32s3tinyepaper.Serv.Active.{Net, tcp_reachable}
use esp32s3tinyepaper.Serv.Active.Cleaned.{cleaned}
use esp32s3tinyepaper.Hosts.{Disk, HostsState}
use esp32s3tinyepaper.Hosts.Followed.{Gives, Follows}

module _ {D F N A : Type 0} (disk : Disk D) (flash : Flash F) (net : Net N A)
    (accepted : List ℕ → Bool) (s : HostsState D F N) where
  -- The address is the first one, or the cleaned text of a reading of the file, which was accepted, and
  -- answered a connection attempt.
  abbrev pub Chosen : HostsState D F N → Type 0
  Chosen t =
      (t.serv.active_addr ≡ s.serv.active_addr)
      ⊎ ((value : List ℕ) × Gives disk flash net accepted s value
          × (accepted value ≡ true)
          × (t.serv.active_addr ≡ cleaned value)
          × (0 < length (cleaned value))
          × ((n : N) × ((tcp_reachable net (cleaned value) n).0 ≡ true)))

  pub same_address-Chosen :
      (t u : HostsState D F N) → u.serv.active_addr ≡ t.serv.active_addr → Chosen t → Chosen u
  same_address-Chosen t u same (inl first) = inl (same ∙ first)
  same_address-Chosen t u same (inr (value, known, fine, address, some_byte, answer)) =
      inr (value, known, fine, same ∙ address, some_byte, answer)

  pub Follows-Chosen :
      (t u : HostsState D F N) → Chosen t → Follows disk flash net accepted t u → Chosen u
  Follows-Chosen t u h (inl (same, valid)) = same_address-Chosen t u same h
  Follows-Chosen t u h (inr (value, known, fine, p)) = elim p.proved [
    | inl (active, kept) ↦ same_address-Chosen t u (p.address ∙ active) h
    | inr (answer, saved) ↦ inr (value, known, fine, p.address, p.some_byte, (t.serv.net, answer))
  ]
