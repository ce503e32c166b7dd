-- ===== src/Handshake/Lazy/Runs.antt =====
-- What goes out on a lazy connection, whatever it is used for.
use sing.Common.{
  ℕ, drop, suc, ◌≡◌, ap, sym, ◌∙◌, true, List, [], ◌∷◌, ◌++◌, length, ◌==◌, append_assoc,
  append-nil, inl, inr, Bool-cases,
}
use sing.Common.Outcome.{Outcome, ok}
use sing.Buf.{Alloc}
use sing.Metadata.{Socksaddr}
use sing.Handshake.Conns.{send}
use sing.Handshake.Lazy.{
  LazyConn, then_do, new_lazy_conn, conn_read, success_response, failure_response,
  conn_handshake_success, handshake_failure, read, write,
}

-- A use of the connection. `succeed` carries the local address of the connection that it is for.
pub data Use : Type 0 where
  succeed : Socksaddr → Use
  fail_with : ℕ → Use
  read_up_to : ℕ → Use
  write_bytes : List ℕ → Use

module _ (get : Alloc) (local : Socksaddr) where
  abbrev pub use_once : Use → LazyConn → LazyConn
  use_once (succeed other) c = (conn_handshake_success get other c).1
  use_once (fail_with code) c = (handshake_failure get local code c).1
  use_once (read_up_to size) c = (read get local size c).1
  use_once (write_bytes p) c = (write get local p c).1

  abbrev pub use_all : List Use → LazyConn → LazyConn
  use_all [] c = c
  use_all (u ∷ us) c = use_all us (use_once u c)

  -- The answer that a first use gives.
  abbrev pub answer : Use → ℕ → Outcome (List ℕ)
  answer (succeed other) version = success_response get other version
  answer (fail_with code) version = failure_response get local code version
  answer (read_up_to size) version = success_response get local version
  answer (write_bytes p) version = success_response get local version

-- What the uses write themselves, on a connection that takes `n` writes more.
abbrev pub payloads : ℕ → List Use → List ℕ
payloads n [] = []
payloads n (succeed other ∷ us) = payloads n us
payloads n (fail_with code ∷ us) = payloads n us
payloads n (read_up_to size ∷ us) = payloads n us
payloads Prim.Native.Nat.zero (write_bytes p ∷ us) = payloads 0 us
payloads (suc n) (write_bytes p ∷ us) = p ++ payloads n us

abbrev opened : List ℕ → List ℕ → ℕ → ℕ → LazyConn
opened src sent n version = record {
  conn = record { src = src; sent = sent; writes = n };
  socks_version = version;
  response_written = true;
}

module _ (get : Alloc) (local : Socksaddr) (version : ℕ) where
  read-opened :
      (size : ℕ) (src sent : List ℕ) (n : ℕ)
      → (src' : List ℕ) × (use_once get local (read_up_to size) (opened src sent n version)
          ≡ opened src' sent n version)
  unfolding conn_handshake_success read
  read-opened size src sent n = elim (Bool-cases (length src == 0)) [
    | inl over ↦ (src, rw over)
    | inr more ↦ (drop size src, rw more)
  ]

  use_all-opened :
      (us : List Use) (src sent : List ℕ) (n : ℕ)
      → (use_all get local us (opened src sent n version)).conn.sent ≡ sent ++ payloads n us
  unfolding conn_handshake_success handshake_failure read write send
  use_all-opened [] src sent n = sym (append-nil sent)
  use_all-opened (succeed other ∷ us) src sent n = use_all-opened us src sent n
  use_all-opened (fail_with code ∷ us) src sent n = use_all-opened us src sent n
  use_all-opened (read_up_to size ∷ us) src sent n =
      let (src', e) = read-opened size src sent n in
      ap (λ c. (use_all get local us c).conn.sent) e ∙ use_all-opened us src' sent n
  use_all-opened (write_bytes p ∷ us) src sent Prim.Native.Nat.zero = use_all-opened us src sent 0
  use_all-opened (write_bytes p ∷ us) src sent (suc n) =
      use_all-opened us src (sent ++ p) n ∙ append_assoc sent p (payloads n us)

  abbrev fresh : List ℕ → ℕ → LazyConn
  fresh src n = new_lazy_conn (record { src = src; sent = []; writes = suc n }) version

  success-fresh :
      (src w : List ℕ) (n : ℕ)
      → success_response get local version ≡ ok w
      → conn_handshake_success get local (fresh src n) ≡ (ok tt, opened src w n version)
  unfolding conn_handshake_success send
  success-fresh src w n a = rw a

  use_once-fresh :
      (u : Use) (src w : List ℕ) (n : ℕ)
      → answer get local u version ≡ ok w
      → use_once get local u (fresh src n) ≡ use_once get local u (opened src w n version)
  unfolding conn_handshake_success handshake_failure read write send
  use_once-fresh (succeed other) src w n a = rw a
  use_once-fresh (fail_with code) src w n a = rw a
  use_once-fresh (read_up_to size) src w n a =
      ap (λ r. (then_do get local (conn_read size) r).1) (success-fresh src w n a)
  use_once-fresh (write_bytes p) src w n a =
      ap (λ r. (then_do get local (send (ok p)) r).1) (success-fresh src w n a)

  -- A new lazy connection that takes a write answers the handshake once, at its first use, whatever
  -- that is: where the answer to that use is `w`, what goes out is `w` and then what the uses write,
  -- up to the break of the connection, and no other answer.
  pub use_all-answered :
      (u : Use) (us : List Use) (src w : List ℕ) (n : ℕ)
      → answer get local u version ≡ ok w
      → (use_all get local
          (u ∷ us)
          (new_lazy_conn (record { src = src; sent = []; writes = suc n }) version)).conn.sent
        ≡ w ++ payloads n (u ∷ us)
  use_all-answered u us src w n a =
      ap (λ c. (use_all get local us c).conn.sent) (use_once-fresh u src w n a)
      ∙ use_all-opened (u ∷ us) src w n
