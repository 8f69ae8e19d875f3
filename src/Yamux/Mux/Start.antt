-- ===== src/Yamux/Mux/Start.antt =====
-- Which configurations a session starts with, and how it starts.
use n6bagent.Prelude.{
  ℕ, zero, suc, ◌%◌, ◌≤◌, ◌<◌, ◌≡◌, refl, ◌⊎◌, inl, inr, ◌≢◌, Bool, false, true, ℤ, pos, negsuc,
  is_zero, is_nonpos, none, some, Option-cases, arith, ◌↔◌, if◌then◌else◌, to_ℕ,
}
use n6bagent.Yamux.Const.{Error, initial_stream_window}
use n6bagent.Yamux.Header.{Bytes}
use n6bagent.Yamux.State.{Config}
use n6bagent.Yamux.Mux.{
  default_config, verify_config, new_session, server, client, started, refused,
}

-- What a session needs of its configuration.
pub record IsSane (c : Config) : Type 0 where
  pub some_backlog : 0 < to_ℕ c.accept_backlog
  pub some_interval : c.keep_alive_interval ≢ pos 0
  pub wide_window : initial_stream_window ≤ c.max_stream_window_size

positive : (x : ℤ) → (is_nonpos x ≡ false) ↔ (0 < to_ℕ x)
positive (pos zero) = ground arith
positive (pos (suc n)) = ground arith
positive (negsuc n) = ground arith

nonzero : (x : ℤ) → (is_zero x ≡ false) ↔ (x ≢ pos 0)
nonzero (pos zero) = ground arith
nonzero (pos (suc n)) = ground arith
nonzero (negsuc n) = ground arith

-- A configuration passes the check exactly when its backlog is positive, its interval is not
-- zero, and its window is at least the initial one.
pub verify_config_iff : (c : Config) → (verify_config c ≡ none) ↔ IsSane c
unfolding verify_config
verify_config_iff c = (
  λ h. ground (arith, positive c.accept_backlog, nonzero c.keep_alive_interval),
  λ v. ground (arith, positive c.accept_backlog, nonzero c.keep_alive_interval),
)

-- The identifiers that a client gives out are odd, and those of a server are even.
abbrev pub parity : Bool → ℕ
parity client = if client then 1 else 0

-- With no configuration given both ends start, with the default one, which passes the check, with
-- no stream open, and the two ends hand out identifiers of different parity.
pub start_default :
    (input : Bytes) (e : Error)
    → (server none input e ≡ started (new_session default_config input e false))
      × (client none input e ≡ started (new_session default_config input e true))
      × IsSane default_config
      × ((new_session default_config input e false).next_stream_id % 2 ≡ 0)
      × ((new_session default_config input e true).next_stream_id % 2 ≡ 1)
unfolding server client verify_config default_config new_session
start_default input e = (refl, refl, ground arith, refl, refl)

-- A given configuration is refused with the error of the check, and starts a session otherwise.
pub server_given :
    (c : Config) (input : Bytes) (e : Error)
    → ((x : Error) × (verify_config c ≡ some x) × (server (some c) input e ≡ refused x))
      ⊎ (IsSane c × (server (some c) input e ≡ started (new_session c input e false)))
unfolding server
server_given c input e = elim (Option-cases (verify_config c)) [
  | inl ok ↦ inr ((verify_config_iff c).0 ok, rw ok)
  | inr (x, bad) ↦ inl (x, bad, rw bad)
]
