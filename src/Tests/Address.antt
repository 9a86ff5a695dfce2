-- ===== src/Tests/Address.antt =====
-- The theorems on the server's address at concrete inputs.
use esp32s3tinyepaper.Base.{
  ℕ, ◌+◌, ◌-◌, ◌≡◌, refl, sym, ap, ◌∙◌, ◌⊎◌, none, Option, true, List, [], ◌∷◌, ◌++◌, some, take,
  arith,
}
use esp32s3tinyepaper.Base.Result.{ok, err, eio, Result}
use esp32s3tinyepaper.Base.Result.Ends.{Ends}
use esp32s3tinyepaper.Serv.Address.{parse_host_port}
use esp32s3tinyepaper.Serv.Address.Roundtrip.{decimal, parse_host_port-decimal}
use esp32s3tinyepaper.Serv.Store.{
  AddrRecord, Flash, address_record, save_active_addr_to_flash, load_active_addr_from_flash,
}
use esp32s3tinyepaper.Serv.Store.Reload.{Stores, load-save}
use esp32s3tinyepaper.Serv.Active.{Net, Serv, tcp_reachable, serv_addr_init, serv_addr_try_promote}
use esp32s3tinyepaper.Serv.Active.Guarded.{Promoted, Kept, serv_addr_try_promote-Promoted}
use esp32s3tinyepaper.Serv.Active.Loaded.{Loaded, Unchanged, serv_addr_init-Loaded}
use esp32s3tinyepaper.Serv.Active.Release.{Counts, tcp_reachable_releases}

abbrev host_a : List ℕ
host_a = b'a' ∷ b'b' ∷ []

abbrev addr_a : List ℕ
addr_a = b'a' ∷ b'b' ∷ b':' ∷ b'8' ∷ b'0' ∷ []

-- A flash that holds one record, and is erased to a record of nothing.
abbrev one_record : Flash AddrRecord
one_record = record {
  open_area = λ f. (ok tt, f);
  erase = λ f. (ok tt, record { magic = 0; crc = 0; addr = [] });
  write = λ rec f. (ok tt, rec);
  read = λ f. (ok f, f);
  close = λ f. f;
}

abbrev erased : AddrRecord
erased = record { magic = 0; crc = 0; addr = [] }

-- A network where every host answers; it counts its open sockets and its address lists.
abbrev Held : Type 0
Held = ℕ × ℕ

abbrev open_net : Net Held ℕ
open_net = record {
  getaddrinfo = λ host port n. (ok (some port), (n.0, n.1 + 1));
  socket = λ a n. (ok 0, (n.0 + 1, n.1));
  setsockopt = λ fd o ms n. n;
  connect = λ fd a n. (ok tt, n);
  close = λ fd n. (n.0 - 1, n.1);
  freeaddrinfo = λ a n. (n.0, n.1 - 1);
}

open_net-Counts : Counts open_net (λ n. n.0) (λ n. n.1)
open_net-Counts = record {
  getaddrinfo_fds = λ h p n. refl;
  getaddrinfo_lists = λ h p n. refl;
  socket_fds = λ a n. refl;
  socket_lists = λ a n. refl;
  setsockopt_fds = λ fd o ms n. refl;
  setsockopt_lists = λ fd o ms n. refl;
  connect_fds = λ fd a n. refl;
  connect_lists = λ fd a n. refl;
  close_fds = λ fd n. refl;
  close_lists = λ fd n. refl;
  freeaddrinfo_fds = λ a n. refl;
  freeaddrinfo_lists = λ a n. refl;
}

abbrev active : Serv AddrRecord Held
active = record { active_addr = host_a; active_valid = true; flash = erased; net = (2, 3) }

parse_host_port-decimal_example :
    parse_host_port (host_a ++ b':' ∷ decimal 5 8080) 80 ≡ some (host_a, 8080)
parse_host_port-decimal_example =
    parse_host_port-decimal host_a 8080 80 (omega arith) (omega arith) (omega arith) (omega arith)

-- A flash that is erased or holds one record, and only takes a record when it is erased.
abbrev erasable : Flash (Option AddrRecord)
erasable = record {
  open_area = λ f. (ok tt, f);
  erase = λ f. (ok tt, none);
  write = λ rec f. (ok tt, elim f [ none ↦ some rec | some old ↦ some old ]);
  read = λ f. (elim f [ none ↦ err eio | some rec ↦ ok rec ], f);
  close = λ f. f;
}

erasable-Stores : Stores erasable (λ f. f)
erasable-Stores = record {
  open_area = λ f. refl;
  close = λ f. refl;
  erase = λ f t e. sym (ap (λ r. r.1) e);
  write = λ rec f t. written f rec t;
  read = λ rec got f t. reading f rec got t;
}
  where
    value : AddrRecord → Result AddrRecord → AddrRecord
    value rec (ok got) = got
    value rec (err e) = rec

    written :
        (f : Option AddrRecord) (rec : AddrRecord) (t : Option AddrRecord)
        → f ≡ none
        → erasable.write rec f ≡ (ok tt, t)
        → t ≡ some rec
    written f rec t empty e = sym (ap (λ r. r.1) e) ∙ ap (λ o. (erasable.write rec o).1) empty

    reading :
        (f : Option AddrRecord) (rec got : AddrRecord) (t : Option AddrRecord)
        → f ≡ some rec
        → erasable.read f ≡ (ok got, t)
        → got ≡ rec
    reading f rec got t full e =
        sym (ap (λ r. value rec r.0) (sym (ap (λ o. erasable.read o) full) ∙ e))

load-save_example :
    Ends
      (λ text _. text ≡ take 127 addr_a)
      (λ e _. (ok tt ≡ err e) ⊎ (ok (address_record addr_a) ≡ err e))
      (load_active_addr_from_flash erasable 128)
      (some (address_record addr_a))
unfolding save_active_addr_to_flash
load-save_example =
    load-save erasable (λ f. f) erasable-Stores addr_a (some erased)
      (omega arith, (omega arith, (omega arith, (omega arith, (omega arith, tt))))) (omega arith)
      refl

tcp_reachable_releases_example :
    ((tcp_reachable open_net addr_a (2, 3)).1.0 ≡ 2)
    × ((tcp_reachable open_net addr_a (2, 3)).1.1 ≡ 3)
tcp_reachable_releases_example =
    tcp_reachable_releases open_net (λ n. n.0) (λ n. n.1) open_net-Counts addr_a (2, 3)

serv_addr_try_promote-Promoted_example :
    Ends
      (λ _ t. Promoted one_record open_net addr_a active t)
      (λ _ t. Kept one_record open_net addr_a active t)
      (serv_addr_try_promote one_record open_net addr_a)
      active
serv_addr_try_promote-Promoted_example =
    serv_addr_try_promote-Promoted one_record open_net addr_a active

serv_addr_init-Loaded_example :
    Ends
      (λ _ t. Loaded one_record open_net addr_a active t)
      (λ _ t. Unchanged one_record open_net addr_a active t)
      (serv_addr_init one_record open_net addr_a)
      active
serv_addr_init-Loaded_example = serv_addr_init-Loaded one_record open_net addr_a active
