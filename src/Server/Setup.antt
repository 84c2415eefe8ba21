-- ===== src/Server/Setup.antt =====
-- `main`: the settings, and the sockets that it takes over or opens.
use yaffle.Base.{
  ℕ, ◌≡◌, refl, ap, ◌++◌, Bool, false, [], ◌∷◌, Option, none, some, Bytes, Result, ok, ◌>>=◌,
  nat_eq, codes, if◌then◌else◌,
}

-- `struct Settings`
pub record Settings : Type 0 where
  pub quickwit_url : Bytes
  pub quickwit_index : Bytes

-- `if quickwit_url.ends_with('/') { quickwit_url.pop(); }`
unfoldable pub pop_slash : Bytes → Bytes
pop_slash [] = []
pop_slash (c ∷ []) = if nat_eq c b'/' then [] else c ∷ []
pop_slash (c ∷ d ∷ s) = c ∷ pop_slash (d ∷ s)

-- An `#[arg(..)]` of `struct Args`: its letter, its default, and the variable that may give it.
pub record Arg : Type 0 where
  pub short : ℕ
  pub default_value : Bytes
  pub env : Bytes

abbrev pub quickwit_url_arg : Arg
quickwit_url_arg = record {
  short = b'q';
  default_value = codes "http://localhost:7280";
  env = codes "QUICKWIT_URL";
}

abbrev pub quickwit_index_arg : Arg
quickwit_index_arg = record {
  short = b'i';
  default_value = codes "yaffle_logs";
  env = codes "QUICKWIT_INDEX";
}

-- `Args::parse()` and the settings; `parse` is what clap gives for an argument.
unfoldable pub settings_from : (Arg → Bytes) → Settings
unfolding pop_slash
settings_from parse = record {
  quickwit_url = pop_slash (parse quickwit_url_arg);
  quickwit_index = parse quickwit_index_arg;
}

-- What listenfd and tokio do: a passed socket is there or not.
pub record Sockets : Type 1 where
  pub Std : Type 0
  pub Udp : Type 0
  pub Tcp : Type 0
  pub Error : Type 0
  pub take_udp_socket : ℕ → Option Std
  pub take_tcp_listener : ℕ → Option Tcp
  pub set_nonblocking : Std → Result Error Unit
  pub from_std : Std → Result Error Udp
  pub bind_udp : Bytes → Result Error Udp
  pub bind_tcp : Bytes → Result Error Tcp

module _ (S : Sockets) where
  open S use {
    Std, Udp, Tcp, Error, take_udp_socket, take_tcp_listener, set_nonblocking, from_std, bind_udp,
    bind_tcp,
  }

  abbrev pub udp_or : Option Std → Bytes → Result Error Udp
  udp_or none address = bind_udp address
  udp_or (some std_sock) address = set_nonblocking std_sock >>= (λ u. from_std std_sock)

  abbrev pub tcp_or : Option Tcp → Bytes → Result Error Tcp
  tcp_or none address = bind_tcp address
  tcp_or (some std_sock) address = ok std_sock

  pub record Running : Type 0 where
    pub settings : Settings
    pub gelf_sock : Udp
    pub syslog_sock : Udp
    pub http_listener : Tcp

  -- What `main` has when it spawns `run_server`; `site_addr` is leptos's.
  unfoldable pub set_up : (site_addr : Bytes) → (Arg → Bytes) → Result Error Running
  unfolding settings_from
  set_up site_addr parse = udp_or (take_udp_socket 0) (codes "[::]:12201") >>= (λ gelf_sock.
      udp_or (take_udp_socket 1) (codes "[::]:10514") >>= (λ syslog_sock.
        tcp_or (take_tcp_listener 2) site_addr >>= (λ http_listener. ok (record {
          settings = settings_from parse;
          gelf_sock = gelf_sock;
          syslog_sock = syslog_sock;
          http_listener = http_listener;
        }))))

abbrev pub ends_with_slash : Bytes → Bool
ends_with_slash [] = false
ends_with_slash (c ∷ []) = nat_eq c b'/'
ends_with_slash (c ∷ d ∷ s) = ends_with_slash (d ∷ s)

pop_slash-slash : (url : Bytes) → pop_slash (url ++ (b'/' ∷ [])) ≡ url
unfolding pop_slash
pop_slash-slash [] = refl
pop_slash-slash (c ∷ []) = refl
pop_slash-slash (c ∷ d ∷ s) = ap (◌∷◌ c) (pop_slash-slash (d ∷ s))

pop_slash_same : (url : Bytes) → ends_with_slash url ≡ false → pop_slash url ≡ url
unfolding pop_slash
pop_slash_same [] h = refl
pop_slash_same (c ∷ []) h = rw h refl
pop_slash_same (c ∷ d ∷ s) h = ap (◌∷◌ c) (pop_slash_same (d ∷ s) h)

-- A slash at the end of the URL that the server is started with makes no difference: with it and
-- without it `main` gets the same settings and sockets, or the same error. The URL without it does
-- not end with another slash.
pub set_up-slash :
    (S : Sockets) (site_addr : Bytes) (parse parse_slash : Arg → Bytes)
    → ends_with_slash (parse quickwit_url_arg) ≡ false
    → parse_slash quickwit_url_arg ≡ parse quickwit_url_arg ++ (b'/' ∷ [])
    → parse_slash quickwit_index_arg ≡ parse quickwit_index_arg
    → set_up S site_addr parse_slash ≡ set_up S site_addr parse
unfolding set_up
set_up-slash S site_addr parse parse_slash h url index =
    rw
      (
        url,
        index,
        pop_slash-slash (parse quickwit_url_arg),
        pop_slash_same (parse quickwit_url_arg) h,
      )
      refl
