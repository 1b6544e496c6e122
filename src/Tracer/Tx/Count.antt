-- ===== src/Tracer/Tx/Count.antt =====
-- What the five probes add up: the bytes of each pid that is watched.
use w_perf_archived.Base.{
  ℕ, ◌+◌, ◌%◌, ◌^◌, ◌<◌, ◌≡◌, refl, ◌∙◌, Bool, true, false, List, [], ◌∷◌, arith, inl, inr, ◌==◌,
  if◌then◌else◌, Bool-cases,
}
use w_perf_archived.Tracer.Tx.{
  Tx, Probes, add_bytes, on_tcp_sendmsg_ent, on_udp_sendmsg_ent, on_tcp_sendpage_ent,
  on_udp_sendpage_ent, on_sock_sendmsg_ent,
}

-- The functions of the kernel that the probes stand on.
pub data Hook : Type 0 where
  tcp_sendmsg udp_sendmsg tcp_sendpage udp_sendpage sock_sendmsg : Hook

-- One call of such a function, by a task.
pub record Send : Type 0 where
  pub hook : Hook
  pub pid : ℕ
  pub size : ℕ

abbrev pub is_on : Hook → Probes → Bool
is_on tcp_sendmsg p = p.tcp_sendmsg
is_on udp_sendmsg p = p.udp_sendmsg
is_on tcp_sendpage p = p.tcp_sendpage
is_on udp_sendpage p = p.udp_sendpage
is_on sock_sendmsg p = p.sock_sendmsg

unfoldable pub handler : Hook → ℕ → ℕ → Tx → Tx
unfolding on_tcp_sendmsg_ent on_udp_sendmsg_ent on_tcp_sendpage_ent on_udp_sendpage_ent
    on_sock_sendmsg_ent
handler tcp_sendmsg = on_tcp_sendmsg_ent
handler udp_sendmsg = on_udp_sendmsg_ent
handler tcp_sendpage = on_tcp_sendpage_ent
handler udp_sendpage = on_udp_sendpage_ent
handler sock_sendmsg = on_sock_sendmsg_ent

-- A probe's handler runs if the probe is on.
unfoldable pub send : Send → Tx → Tx
unfolding handler
send s t = if is_on s.hook t.probes then handler s.hook s.pid s.size t else t

unfoldable pub sends : List Send → Tx → Tx
unfolding send
sends [] t = t
sends (s ∷ ss) t = sends ss (send s t)

-- The bytes that `pid` sends, as the probes in `p` see them.
unfoldable pub total : Probes → ℕ → List Send → ℕ
total p pid [] = 0
total p pid (s ∷ ss) =
    (if s.pid == pid then (if is_on s.hook p then s.size else 0) else 0) + total p pid ss

pub handler-add_bytes :
    (h : Hook) (pid size : ℕ) (t : Tx) → handler h pid size t ≡ add_bytes pid size t
unfolding handler
handler-add_bytes tcp_sendmsg pid size t = refl
handler-add_bytes udp_sendmsg pid size t = refl
handler-add_bytes tcp_sendpage pid size t = refl
handler-add_bytes udp_sendpage pid size t = refl
handler-add_bytes sock_sendmsg pid size t = refl

-- One more call: `n` bytes of `by`, which a probe that is off does not see.
pub record Added (by n : ℕ) (t u : Tx) (pid : ℕ) : Type 0 where
  pub filter : u.filter ≡ t.filter
  pub probes : u.probes ≡ t.probes
  pub enabled : u.tx_enabled ≡ t.tx_enabled
  pub word : u.tx_stats pid < 2 ^ 64
  pub count : u.tx_stats pid ≡ (
      if t.filter pid
      then (t.tx_stats pid + (if by == pid then n else 0)) % 2 ^ 64
      else t.tx_stats pid)

add_bytes-Added :
    (by n : ℕ) (t : Tx) (pid : ℕ) → t.tx_stats pid < 2 ^ 64 → Added by n t (add_bytes by n t) pid
unfolding add_bytes
add_bytes-Added by n t pid h = ground arith

nothing-Added : (by : ℕ) (t : Tx) (pid : ℕ) → t.tx_stats pid < 2 ^ 64 → Added by 0 t t pid
nothing-Added by t pid h = ground arith

abbrev pub seen : Send → Probes → ℕ
seen s p = if is_on s.hook p then s.size else 0

pub send-Added :
    (s : Send) (t : Tx) (pid : ℕ)
    → t.tx_stats pid < 2 ^ 64
    → Added s.pid (seen s t.probes) t (send s t) pid
unfolding send
send-Added s t pid h = elim (Bool-cases (is_on s.hook t.probes)) [
  | inl e ↦ rw (e, handler-add_bytes) (add_bytes-Added s.pid s.size t pid h)
  | inr e ↦ rw e (nothing-Added s.pid t pid h)
]

add_up :
    (watched : Bool) (x n m : ℕ) {y z : ℕ}
    → y ≡ (if watched then (x + n) % 2 ^ 64 else x)
    → z ≡ (if watched then (y + m) % 2 ^ 64 else y)
    → z ≡ (if watched then (x + (n + m)) % 2 ^ 64 else x)
add_up true x n m h k = omega arith
add_up false x n m h k = omega arith

-- After any calls by any tasks, the counter of a pid that is watched has grown by the bytes that it
-- sent through functions whose probe is on, as a 64-bit sum; the counters of the other pids, and
-- the rest of the state, are as they were.
pub record Counted (ss : List Send) (t u : Tx) (pid : ℕ) : Type 0 where
  pub filter : u.filter ≡ t.filter
  pub probes : u.probes ≡ t.probes
  pub enabled : u.tx_enabled ≡ t.tx_enabled
  pub count :
      u.tx_stats pid
      ≡ (if t.filter pid then (t.tx_stats pid + total t.probes pid ss) % 2 ^ 64 else t.tx_stats pid)

-- After any calls by any tasks, the counter of a pid that is watched, an unsigned long, has grown
-- by the bytes that it sent through functions whose probe is on, as a 64-bit sum; the counter of a
-- pid that is not watched, and the filter, the flag and the probes, are as they were.
pub sends-Counted :
    (ss : List Send) (t : Tx) (pid : ℕ) → t.tx_stats pid < 2 ^ 64 → Counted ss t (sends ss t) pid
unfolding sends total
sends-Counted [] t pid h = ground arith
sends-Counted (s ∷ ss) t pid h =
    let a = send-Added s t pid h in
    let c = sends-Counted ss (send s t) pid a.word in
    record {
      filter = c.filter ∙ a.filter;
      probes = c.probes ∙ a.probes;
      enabled = c.enabled ∙ a.enabled;
      count =
          add_up (t.filter pid) (t.tx_stats pid) (if s.pid == pid then seen s t.probes else 0)
            (total t.probes pid ss) a.count (rw (a.filter, a.probes) at c.count);
    }
