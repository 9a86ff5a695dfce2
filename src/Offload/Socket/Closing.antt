-- ===== src/Offload/Socket/Closing.antt =====
-- The end of a socket's life in drivers/ec801e/ec801e_socket_offload.c, `ec801e_sock_close`.
use esp32s3tinyepaper.Base.{
  ◌≡◌, ◌⊎◌, inl, inr, refl, Bool, true, false, false≢true, not, if◌then◌else◌,
}
use esp32s3tinyepaper.Base.Result.{Result, ok, err, Errno, ebadf, pure, modify, of_result, ◌>>◌}
use esp32s3tinyepaper.Base.Result.Ends.{Ended, Ends, with_state-Ends, attempt-Ends, raise_if-Ends}
use esp32s3tinyepaper.Offload.{Modem, Offload, with_ctx, on_modem}
use esp32s3tinyepaper.Offload.Socket.{closed_ctx, ec801e_sock_close}

module _ {M : Type 0} (modem : Modem M) (s : Offload M) where
  -- The state is as before, and there was nothing to close.
  abbrev pub Untouched : Errno → Offload M → Type 0
  Untouched e t = (s.g_ctx.allocated ≡ false) × (e ≡ ebadf) × (t ≡ s)

  was_free : not s.g_ctx.allocated ≡ true → s.g_ctx.allocated ≡ false
  was_free e = go s.g_ctx.allocated e
    where
      go : (b : Bool) → not b ≡ true → b ≡ false
      go true e = absurd (false≢true e)
      go false e = refl

  reset :
      (ret : Result (Unit {0})) (t : Offload M)
      → Ended
          (λ _ t. t.g_ctx ≡ closed_ctx)
          (λ e t. (t.g_ctx ≡ closed_ctx) ⊎ Untouched e t)
          (ret, with_ctx (λ ctx. closed_ctx) t)
  unfolding with_ctx
  reset (ok x) t = refl
  reset (err e) t = inl refl

  -- Closing an open socket resets its context, also when the modem cannot close its connection and the
  -- call fails; closing a socket that is not open fails with EBADF and changes nothing.
  pub ec801e_sock_close-resets :
      Ends
        (λ _ t. t.g_ctx ≡ closed_ctx)
        (λ e t. (t.g_ctx ≡ closed_ctx) ⊎ Untouched e t)
        (ec801e_sock_close modem)
        s
  unfolding ec801e_sock_close
  ec801e_sock_close-resets = with_state-Ends _ (
      raise_if-Ends (not s.g_ctx.allocated) ebadf (λ free. inr (was_free free, refl, refl))
        (λ allocated.
          attempt-Ends (λ ret. modify (with_ctx (λ ctx. closed_ctx)) >> of_result ret)
            (record {
              ended =
                  reset ((if s.g_ctx.connected then on_modem modem.close else pure tt) s).0
                    ((if s.g_ctx.connected then on_modem modem.close else pure tt) s).1;
            })))
