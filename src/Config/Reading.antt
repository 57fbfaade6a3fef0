-- ===== src/Config/Reading.antt =====
-- What a configuration that was read says, src/main.cpp (get_config).
-- The members that a configuration of a server that is not remote comes from besides.
use ssl_socks.Base.{
  ◌≡◌, refl, sym, ap, ◌∙◌, subst, Bool, true, false, ◌||◌, Option, none, some, List, [], ◌∷◌,
  length, Bytes,
}
use ssl_socks.Config.{
  ◌>>=◌, bind-elim, ConfigInt, RelayConfig, default_config, port_key, threads_key, type_key,
  server_port_key, server_key, cert_key, key_key, log_key, Json, type_of, default_gfwlist, get_peer,
  peer_unless, get_config,
}
use ssl_socks.Gfw.{load_list, is_blocked}
use ssl_socks.Gfw.Blocked.{ends_with_any, is_empty, is_blocked-load_list}
use ssl_socks.Gfw.Lines.{Entry, AllEntries, file_of, OneLine}
use ssl_socks.Manager.World.{is_remote}

abbrev pub PeerFrom : (ConfigInt → Bytes) → (Bytes → Bytes) → Json → RelayConfig → Type 0
PeerFrom decimal contents j c =
    (j.get_string server_key ≡ some c.remote_ip)
    × ((port : ConfigInt) × (j.get_int server_port_key ≡ some port)
        × (c.remote_port ≡ decimal port))
    × (j.gfwlist_or default_gfwlist ≡ some c.gfw_file)
    × (c.gfw.hosts ≡ load_list c.gfw_file (contents c.gfw_file) [])

abbrev pub PeerOf : Bool → (ConfigInt → Bytes) → (Bytes → Bytes) → Json → RelayConfig → Type 0
PeerOf true decimal contents j c = c.gfw.hosts ≡ []
PeerOf false decimal contents j c = PeerFrom decimal contents j c

absent_config : {c : RelayConfig} → none ≡ some c → ⊥
absent_config e = cc

same_config : {c d : RelayConfig} → some c ≡ some d → c ≡ d
same_config e = cc

-- What every configuration comes from.
abbrev pub ReadFrom : (ConfigInt → Bytes) → (Bytes → Bytes) → Json → RelayConfig → Type 0
ReadFrom decimal contents j c =
    (j.get_int port_key ≡ some c.local_port)
    × (j.get_int threads_key ≡ some c.thread_num)
    × ((text : Bytes) × (j.get_string type_key ≡ some text) × (c.type ≡ type_of text))
    × (j.get_string cert_key ≡ some c.cert)
    × (j.get_string key_key ≡ some c.key)
    × (j.get_string log_key ≡ some c.logfile)
    × PeerOf (is_remote c.type) decimal contents j c

module _ (decimal : ConfigInt → Bytes) (contents : Bytes → Bytes) (j : Json) where
  PeerOf-record :
      (remote : Bool) (a b l : Bytes) (c : RelayConfig)
      → PeerOf remote decimal contents j c
      → PeerOf remote decimal contents j (record c { cert = a; key = b; logfile = l })
  PeerOf-record true a b l c h = h
  PeerOf-record false a b l c h = h

  -- The last three members.
  ends_read :
      (text : Bytes) (c d : RelayConfig)
      → j.get_string type_key ≡ some text
      → c.type ≡ type_of text
      → j.get_int port_key ≡ some c.local_port
      → j.get_int threads_key ≡ some c.thread_num
      → PeerOf (is_remote c.type) decimal contents j c
      → (do
        cert_file ← j.get_string cert_key
        key_file ← j.get_string key_key
        log_to ← j.get_string log_key
        some (record c { cert = cert_file; key = key_file; logfile = log_to }))
        ≡ some d
      → ReadFrom decimal contents j d
  ends_read text c d t y p h r e = bind-elim (j.get_string cert_key) _ e (λ a got_a e1.
      bind-elim (j.get_string key_key) _ e1 (λ b got_b e2.
        bind-elim (j.get_string log_key) _ e2 (λ l got_l e3.
          subst (ReadFrom decimal contents j) (same_config e3)
            (p, h, (text, t, y), got_a, got_b, got_l, PeerOf-record (is_remote c.type) a b l c r))))

  peer_unless-members :
      (remote : Bool) (c peer : RelayConfig)
      → c.gfw.hosts ≡ []
      → peer_unless remote decimal contents j c ≡ some peer
      → (peer.local_port ≡ c.local_port)
        × (peer.thread_num ≡ c.thread_num)
        × (peer.type ≡ c.type)
        × PeerOf remote decimal contents j peer
  unfolding peer_unless get_peer
  peer_unless-members true c peer fresh e =
      let same = same_config e in
      (
        ap (λ x. x.local_port) (sym same),
        ap (λ x. x.thread_num) (sym same),
        ap (λ x. x.type) (sym same),
        ap (λ x. x.gfw.hosts) (sym same) ∙ fresh,
      )
  peer_unless-members false c peer fresh e =
      bind-elim (j.get_int server_port_key) _ e (λ port got_port e1.
        bind-elim (j.get_string server_key) _ e1 (λ server got_server e2.
          bind-elim (j.gfwlist_or default_gfwlist) _ e2 (λ file got_file e3.
            subst
              (λ x.
                (x.local_port ≡ c.local_port)
                × (x.thread_num ≡ c.thread_num)
                × (x.type ≡ c.type)
                × PeerFrom decimal contents j x)
              (same_config e3)
              (
                refl,
                refl,
                refl,
                (
                  got_server,
                  (port, got_port, refl),
                  got_file,
                  ap (load_list file (contents file)) fresh,
                ),
              ))))

  -- A configuration that get_config returns holds the port, the number of threads, the type by its
  -- name, the certificate, the key and the log file that the document gives; a server that is not
  -- remote has besides the address and the port of the other side from it, and the list loaded
  -- from the file that it names or the default one, and a remote server has no list.
  pub get_config-ReadFrom :
      (d : RelayConfig) → get_config decimal contents j ≡ some d → ReadFrom decimal contents j d
  unfolding get_config
  get_config-ReadFrom d e = bind-elim (j.get_int port_key) _ e (λ port got_port e1.
      bind-elim (j.get_int threads_key) _ e1 (λ threads got_threads e2.
        bind-elim (j.get_string type_key) _ e2 (λ text got_text e3.
          bind-elim
            (peer_unless (is_remote (type_of text)) decimal contents j (record default_config {
              local_port = port;
              thread_num = threads;
              type = type_of text;
            }))
            _ e3
            (λ peer got_peer e4.
              let (p, h, y, members) =
                peer_unless-members (is_remote (type_of text))
                  (record default_config {
                    local_port = port;
                    thread_num = threads;
                    type = type_of text;
                  })
                  peer refl got_peer in
              ends_read text peer d got_text y (got_port ∙ ap some (sym p))
                (got_threads ∙ ap some (sym h))
                (subst (λ k. PeerOf (is_remote k) decimal contents j peer) (sym y) members) e4))))

  -- Where get_config returns the configuration of a server that is not remote, whose list file has
  -- a name and holds a first line and then lines of bars and plain host names, a host is blocked,
  -- so that it is reached over TLS, exactly if it ends with one of the names, or if there are
  -- none.
  pub get_config-is_blocked :
      (d : RelayConfig) (other : Bytes → Bytes → Option Bool) (header host : Bytes)
      (es : List Entry)
      → get_config decimal contents j ≡ some d
      → is_remote d.type ≡ false
      → (length d.gfw_file ≡ 0 → ⊥)
      → contents d.gfw_file ≡ file_of header es
      → OneLine header
      → AllEntries es
      → is_blocked other d.gfw.hosts host ≡ some (is_empty es || ends_with_any es host)
  get_config-is_blocked d other header host es e k named f h a =
      by_file d.gfw_file named
        (subst (λ r. PeerOf r decimal contents j d) k (get_config-ReadFrom d e).6).3 f
    where
      by_file :
          (file : Bytes)
          → (length file ≡ 0 → ⊥)
          → d.gfw.hosts ≡ load_list file (contents file) []
          → contents file ≡ file_of header es
          → is_blocked other d.gfw.hosts host ≡ some (is_empty es || ends_with_any es host)
      by_file [] n b g = absurd (n refl)
      by_file (c ∷ cs) n b g =
          ap (λ hosts. is_blocked other hosts host) (b ∙ ap (λ x. load_list (c ∷ cs) x []) g)
          ∙ is_blocked-load_list other host c cs header es h a
