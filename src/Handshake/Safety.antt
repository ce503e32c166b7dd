-- ===== src/Handshake/Safety.antt =====
-- Who gets through the server's part of the handshake.
use sing.Common.{
  ◌⊎◌, inl, inr, ◌∙◌, ℕ, ◌≡◌, refl, sym, subst, true, List, [], Option, some, ◌==◌, arith,
}
use sing.Common.Outcome.{invalid_argument, Outcome, ok}
use sing.Buf.{Alloc}
use sing.Netip.{Addr}
use sing.Stream.{next}
use sing.Metadata.{Socksaddr}
use sing.Auth.{Authenticator, verify}
use sing.Socks4
use sing.Socks5
use sing.Handshake.Conns.{Conn, receive, lift, caused}
use sing.Handshake.Ensures.{
  OkIs, Ensures, bind-Ensures, then-Ensures, receive-Ensures, send-Ensures, imply-Ensures,
  fail-Ensures, done-Ensures, if-Ensures,
}
use sing.Handshake.{
  Event, handle_socks4, authenticate, negotiate, associate, serve, handle_socks5, handle_connection,
  refuses, unacceptable,
}
use sing.Handshake.Event.{new_connection, new_packet_connection}

-- The user that the handler finds in the context.
abbrev pub user_of : Event → Option (List ℕ)
user_of (new_connection user version destination) = user
user_of (new_packet_connection user destination) = user

module _ (parse : List ℕ → Option Addr) where
  -- The client's bytes are a SOCKS 4 request of this user, with no password.
  abbrev pub Shows4 : List ℕ → List ℕ → List ℕ → Type 0
  Shows4 src user password =
      (s s' : List ℕ) × (request : Socks4.Request) × (next src ≡ ok (Socks4.version, s))
      × (Socks4.read_request0 parse s ≡ ok (request, s'))
      × (request.username ≡ user)
      × (password ≡ [])

  -- The client's bytes are a SOCKS 5 offer of methods and a login with this user and password.
  abbrev pub Shows5 : List ℕ → List ℕ → List ℕ → Type 0
  Shows5 src user password =
      (s s' s'' : List ℕ) × (offer : Socks5.AuthRequest)
      × (login : Socks5.UsernamePasswordAuthRequest) × (next src ≡ ok (Socks5.version, s))
      × (Socks5.read_auth_request0 s ≡ ok (offer, s'))
      × (Socks5.read_username_password_auth_request s' ≡ ok (login, s''))
      × (login.username ≡ user)
      × (login.password ≡ password)

  abbrev pub Shows : List ℕ → List ℕ → List ℕ → Type 0
  Shows src user password = Shows4 src user password ⊎ Shows5 src user password

at_version :
    (src s : List ℕ) (version v : ℕ)
    → version == v ≡ true
    → next src ≡ ok (version, s)
    → next src ≡ ok (v, s)
at_version src s version v e got = ground (arith, e, got)

module _ (parse : List ℕ → Option Addr) (get : Alloc) (listen first_packet : Outcome Socksaddr)
    (au : Authenticator) where
  -- The user has shown a password that the authenticator accepts.
  abbrev pub Verified : List ℕ → Option (List ℕ) → Type 0
  Verified src user =
      (u p : List ℕ) × (user ≡ some u) × Shows parse src u p × (verify au u p ≡ true)

  abbrev Loggedin : List ℕ → Option (List ℕ) → List ℕ → Type 0
  Loggedin s user s' =
      (login : Socks5.UsernamePasswordAuthRequest) × (Socks5.read_username_password_auth_request s
        ≡ ok (login, s'))
      × (user ≡ some login.username)
      × (verify au login.username login.password ≡ true)

  authenticate-Ensures : (s : List ℕ) → Ensures s (Loggedin s) (authenticate (some au))
  unfolding authenticate
  authenticate-Ensures s =
      bind-Ensures s _ (Loggedin s) _ _
        (receive-Ensures s Socks5.read_username_password_auth_request)
        (λ request s' got. bind-Ensures s' _ (Loggedin s) _ _ (send-Ensures s' _) (λ sent s'' same.
          if-Ensures s'' (Loggedin s) (verify au request.username request.password) _ _
            (λ accepted. done-Ensures s'' (Loggedin s) _ (
              request,
              subst (λ k. Socks5.read_username_password_auth_request s ≡ ok (request, k)) (sym same)
                  got,
              refl,
              accepted,
            ))
            (λ refused. fail-Ensures s'' (Loggedin s) _)))

  abbrev Offered : List ℕ → Unit {0} → List ℕ → Type 0
  Offered s x s' = (offer : Socks5.AuthRequest) × (Socks5.read_auth_request0 s ≡ ok (offer, s'))

  negotiate-Ensures : (s : List ℕ) → Ensures s (Offered s) (negotiate (some au))
  unfolding negotiate
  negotiate-Ensures s =
      bind-Ensures s _ (Offered s) _ _ (receive-Ensures s Socks5.read_auth_request0)
        (λ offer s' got.
          bind-Ensures s' (λ x k. k ≡ s') (Offered s) _ _
            (if-Ensures s' (λ x k. k ≡ s') (unacceptable (some au) offer.methods) _ _
              (λ refused. send-Ensures s' _) (λ accepted. done-Ensures s' (λ x k. k ≡ s') tt refl))
            (λ x k same.
              imply-Ensures k (λ y l. l ≡ k) (Offered s) _ (send-Ensures k _)
                (λ y l same'. (
                  offer,
                  subst (λ k. Socks5.read_auth_request0 s ≡ ok (offer, k)) (sym (same' ∙ same)) got,
                ))))

  serve-Ensures :
      (src s : List ℕ) (user : Option (List ℕ))
      → Verified src user
      → Ensures s (λ e s'. Verified src (user_of e)) (serve parse get listen first_packet user)
  unfolding serve associate
  serve-Ensures src s user v =
      let P : Event → List ℕ → Type 0 = λ e s'. Verified src (user_of e) in
      then-Ensures s P (receive (Socks5.read_request parse)) _ (λ request s'.
        if-Ensures s' P (request.command == Socks5.command_connect) _ _
          (λ connect. done-Ensures s' P (new_connection user Socks5.version request.destination) v)
          (λ other.
            if-Ensures s' P (request.command == Socks5.command_udp_associate) _ _
              (λ udp. then-Ensures s' P (caused "socks5: listen udp" (lift listen)) _ (λ local k.
                then-Ensures k P _ _ (λ sent k'.
                  then-Ensures k' P (caused "socks5: read first packet" (lift first_packet)) _
                    (λ destination l.
                      done-Ensures l P (new_packet_connection user destination) v))))
              (λ unsupported. then-Ensures s' P _ _ (λ sent k. fail-Ensures k P _))))

  handle_socks4-Ensures :
      (src s : List ℕ)
      → next src ≡ ok (Socks4.version, s)
      → Ensures s
          (λ e s'. Verified src (user_of e))
          (handle_socks4 parse get listen first_packet (some au))
  unfolding handle_socks4
  handle_socks4-Ensures src s four =
      let P : Event → List ℕ → Type 0 = λ e s'. Verified src (user_of e) in
      bind-Ensures s _ P _ _ (receive-Ensures s (Socks4.read_request0 parse)) (λ request s' got.
        if-Ensures s' P (request.command == Socks4.command_connect) _ _
          (λ connect.
            if-Ensures s' P (refuses (some au) request.username []) _ _
              (λ refused. then-Ensures s' P _ _ (λ sent k. fail-Ensures k P _))
              (λ accepted.
                done-Ensures s' P
                  (new_connection (some request.username) Socks4.version request.destination)
                  (
                    request.username,
                    [],
                    refl,
                    inl (s, s', request, four, got, refl, refl),
                    ground (arith, accepted),
                  )))
          (λ unsupported. then-Ensures s' P _ _ (λ sent k. fail-Ensures k P _)))

  handle_socks5-Ensures :
      (src s : List ℕ)
      → next src ≡ ok (Socks5.version, s)
      → Ensures s
          (λ e s'. Verified src (user_of e))
          (handle_socks5 parse get listen first_packet (some au))
  unfolding handle_socks5
  handle_socks5-Ensures src s five =
      let P : Event → List ℕ → Type 0 = λ e s'. Verified src (user_of e) in
      bind-Ensures s (Offered s) P _ _ (negotiate-Ensures s) (λ x s' offered.
        bind-Ensures s' (Loggedin s') P _ _ (authenticate-Ensures s') (λ user s'' logged.
          let (offer, got) = offered in
          let (login, got', is, accepted) = logged in
          serve-Ensures src s'' user (
            login.username,
            login.password,
            is,
            inr (s, s', s'', offer, login, five, got, got', refl, refl),
            accepted,
          )))

  handle_connection-Ensures :
      (src : List ℕ)
      → Ensures src
          (λ e s'. Verified src (user_of e))
          (handle_connection parse get listen first_packet (some au))
  unfolding handle_connection
  handle_connection-Ensures src =
      let P : Event → List ℕ → Type 0 = λ e s'. Verified src (user_of e) in
      bind-Ensures src _ P _ _ (receive-Ensures src next) (λ version s got.
        if-Ensures s P (version == Socks4.version) _ _
          (λ four. handle_socks4-Ensures src s (at_version src s version Socks4.version four got))
          (λ other.
            if-Ensures s P (version == Socks5.version) _ _
              (λ five.
                handle_socks5-Ensures src s (at_version src s version Socks5.version five got))
              (λ unknown. fail-Ensures s P invalid_argument)))

  -- With an authenticator, whatever the client sends and whenever the connection breaks: if the
  -- handler is given a connection or a packet connection, then with a user in the context, and the
  -- authenticator accepts that user with the password that the client has sent: the client's bytes
  -- are read as a SOCKS 5 offer of methods and a login with that user name and that password, or as a
  -- SOCKS 4 request with that user name, which comes with the empty password.
  pub handle_connection-verify :
      (c c' : Conn) (e : Event)
      → handle_connection parse get listen first_packet (some au) c ≡ (ok e, c')
      → (u p : List ℕ) × (user_of e ≡ some u) × Shows parse c.src u p × (verify au u p ≡ true)
  handle_connection-verify c c' e h =
      subst (OkIs (λ e' s'. Verified c.src (user_of e'))) h
        ((handle_connection-Ensures c.src).ensured c refl)
