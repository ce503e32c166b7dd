-- ===== src/Handshake/Lazy.antt =====
-- protocol/socks/lazy.go: a connection whose handshake is answered at its first use.
pub mod Runs
use sing.Common.{
  ℕ, suc, ◌≡◌, refl, ap, sym, ◌∙◌, Bool, true, false, List, [], ◌∷◌, ◌++◌, length, take, drop, ◌==◌,
  if◌then◌else◌, append_assoc, append-nil,
}
use sing.Common.Outcome.{eof, invalid_argument, Outcome, ok, err, panic}
use sing.Buf.{Alloc}
use sing.Metadata.{Socksaddr, no_addr, unwrap}
use sing.Socks4
use sing.Socks5
use sing.Handshake.Conns.{Conn, send}

pub record LazyConn : Type 0 where
  pub conn : Conn
  pub socks_version : ℕ
  pub response_written : Bool

abbrev pub new_lazy_conn : Conn → ℕ → LazyConn
new_lazy_conn conn version = record {
  conn = conn;
  socks_version = version;
  response_written = false;
}

-- `Read` and `Write` of the connection itself.
abbrev pub conn_read : ℕ → Conn → Outcome (List ℕ) × Conn
conn_read size c =
    if length c.src == 0
    then (err eof, c)
    else (ok (take size c.src), record c { src = drop size c.src })

abbrev pub write_first_response : Outcome (List ℕ) → LazyConn → Outcome (Unit {0}) × LazyConn
write_first_response w c =
    let (o, conn) = send w c.conn in (o, record c { conn = conn; response_written = true })

-- The buffer allocator, and the local address of the connection, are parameters.
module _ (get : Alloc) (local : Socksaddr) where
  unfoldable pub success_response : ℕ → Outcome (List ℕ)
  success_response version =
      if version == Socks4.version
      then Socks4.write_response get
          (record { reply_code = Socks4.reply_code_granted; destination = unwrap local })
      else if version == Socks5.version
      then Socks5.write_response get
          (record { reply_code = Socks5.reply_code_success; bind = unwrap local })
      else panic

  -- `code` is `ReplyCodeForError` of the error.
  pub failure_response : ℕ → ℕ → Outcome (List ℕ)
  failure_response code version =
      if version == Socks4.version
      then Socks4.write_response get
          (record { reply_code = Socks4.reply_code_rejected_or_failed; destination = no_addr })
      else if version == Socks5.version
      then Socks5.write_response get (record { reply_code = code; bind = no_addr })
      else panic

  pub conn_handshake_success : LazyConn → Outcome (Unit {0}) × LazyConn
  conn_handshake_success c =
      if c.response_written
      then (ok tt, c)
      else write_first_response (success_response c.socks_version) c

  pub handshake_failure : ℕ → LazyConn → Outcome (Unit {0}) × LazyConn
  handshake_failure code c =
      if c.response_written
      then (err invalid_argument, c)
      else write_first_response (failure_response code c.socks_version) c

  -- What `Read` and `Write` do first.
  abbrev pub then_do :
      {A : Type 0}
      → (Conn → Outcome A × Conn)
      → Outcome (Unit {0}) × LazyConn
      → Outcome A × LazyConn
  then_do use_conn (ok u, c) = ((use_conn c.conn).0, record c { conn = (use_conn c.conn).1 })
  then_do use_conn (err e, c) = (err e, c)
  then_do use_conn (panic, c) = (panic, c)

  pub read : ℕ → LazyConn → Outcome (List ℕ) × LazyConn
  unfolding conn_handshake_success
  read size c = then_do (conn_read size) (conn_handshake_success c)

  pub write : List ℕ → LazyConn → Outcome (Unit {0}) × LazyConn
  unfolding conn_handshake_success
  write p c = then_do (send (ok p)) (conn_handshake_success c)
