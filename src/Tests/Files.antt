-- ===== src/Tests/Files.antt =====
-- The file operations at concrete inputs.
use w_perf_archived.Base.{ℕ, ◌+◌, ◌≡◌, refl, true, some, [], ◌∷◌, ◌++◌, arith, length, take, drop}
use w_perf_archived.Tracer.Text.{Bytes, codes, newline, join}
use w_perf_archived.Tracer.Text.Tokens.{IsToken}
use w_perf_archived.Tracer.Kernel.{ok}
use w_perf_archived.Tracer.Disk.{Disk, init}
use w_perf_archived.Tracer.Disk.Valid.{init-Valid}
use w_perf_archived.Tracer.Files.{UserCopy, filter_write_generic, read_generic}
use w_perf_archived.Tracer.Files.Ops.{ev_dutils_filter}
use w_perf_archived.Tracer.Files.Session.{lucky, filter_session}
use w_perf_archived.Tests.Kernel.{sample}

abbrev copied : ℕ → ℕ → Bytes → Bytes
copied cnt ppos buf = take cnt (drop ppos buf)

abbrev user : UserCopy
user = record {
  simple_read = λ cnt ppos buf. record {
    ret = ok (length (copied cnt ppos buf));
    ppos = ppos + length (copied cnt ppos buf);
    out = copied cnt ppos buf;
  };
  reads = λ cnt ppos buf. refl;
}

sda-IsToken : IsToken (codes "sda")
sda-IsToken = omega arith

filter_session_example :
    let text : Bytes = codes "sda" ++ newline ∷ [] in
    (d' : Disk) × (filter_write_generic sample lucky
        (ev_dutils_filter sample)
        (text ++ codes "junk")
        4
        0
        init
      ≡ some (ok 4, 4, d'))
    × (read_generic user true (some (ev_dutils_filter sample)) 64 0 d'
        ≡ some (record { ret = ok 4; ppos = 4; out = text }, d'))
unfolding join
filter_session_example =
    filter_session sample user (codes "sda") [] (codes "junk") init 64 init-Valid (sda-IsToken, tt)
      (omega arith) (omega arith) (omega arith)
