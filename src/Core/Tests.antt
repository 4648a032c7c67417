-- ===== src/Core/Tests.antt =====
-- The theorems on src/core at concrete inputs.
use pve_agent.Base.{
  join, List, is_space, throw, Text, none, [], ◌≤◌, ◌<◌, is_digit, print_nat, [], ◌∷◌, ◌++◌, ◌==◌,
  codes, ok, ℕ, ◌*◌, ◌≡◌, refl, some, arith,
}
use pve_agent.Core.Values.{JsValue, string}
use pve_agent.Core.Privileges.{is_root_only_qemu_option, is_set_value}
use pve_agent.Core.Privileges.Reported.{IsReported}
use pve_agent.Core.Privileges.Options.{root_only_params-set}
use pve_agent.Core.Privileges.Deletes.{root_only_params-delete}
use mathlib.Core.List.{Memᴰ}
use pve_agent.Core.Upid.{parse_upid, is_node_name, is_name_field}
use pve_agent.Core.Upid.RoundTrip.{write_upid, parse_upid-write_upid}
use pve_agent.Core.Props.Names.{
  parse_size, format_size, split_indexed_key, expand_indexed_key, indexed_key_base,
}
use pve_agent.Core.Props.Indexed.{split_indexed_key-expand_indexed_key}
use pve_agent.Core.Props.Laws.{parse_size-format_size}
use pve_agent.Core.Poll.{PollOptions, Polled, poll_until}
use pve_agent.Core.Poll.Ends.{
  GoesOn, accepted, delay_at, waits_before, poll_until-first, poll_until-ends,
}

parse_size-format_size_example : parse_size (format_size 34359738368) ≡ some 34359738368
parse_size-format_size_example = parse_size-format_size 34359738368

parse_upid-write_upid_example :
    parse_upid (
      write_upid
        (codes "pve-1")
        50000
        1234567
        1700000000
        (codes "qmstart")
        (codes "100")
        (codes "root@pam"))
    ≡ ok (record {
      node = codes "pve-1";
      pid = 50000;
      pstart = 1234567;
      start_time = 1700000000;
      type = codes "qmstart";
      id = codes "100";
      user = codes "root@pam";
      upid =
          write_upid
            (codes "pve-1")
            50000
            1234567
            1700000000
            (codes "qmstart")
            (codes "100")
            (codes "root@pam");
    })
unfolding is_node_name is_name_field
parse_upid-write_upid_example =
    parse_upid-write_upid (codes "pve-1") 50000 1234567 1700000000 (codes "qmstart") (codes "100")
      (codes "root@pam") refl (omega arith) (omega arith) (omega arith) refl refl refl

-- A signal that is never aborted, and 1000 milliseconds for answers of 2.
abbrev three_tries : PollOptions Text ℕ
three_tries = record {
  done = λ k. k == 2;
  on_timeout = λ k. throw (codes "gave up");
  on_poll = λ k. ok tt;
  aborted = λ k wait. none;
  timeout_ms = some 1000;
  initial_delay_ms = some 10;
  max_delay_ms = some 50;
}

abbrev clock : ℕ → ℕ
clock k = 10 * k

-- The clock of the round that reaches the deadline.
abbrev slow_clock : ℕ → ℕ
slow_clock k = 600 * k

goes_on : (j : ℕ) → j < 2 → GoesOn (λ k. ok k) clock three_tries j
goes_on j h = (j, (refl, refl, ground arith, omega arith), refl)

poll_until-first_example :
    poll_until (λ k. ok k) clock three_tries 5
    ≡ some (record { answer = ok 2; waits = 10 ∷ 20 ∷ []; probes = 3 })
unfolding waits_before delay_at
poll_until-first_example =
    poll_until-first (λ k. ok k) clock three_tries 2 5 (ok 2) (10 ∷ 20 ∷ []) goes_on
      (accepted 2 refl refl refl) (omega arith)

poll_until-ends_example :
    (polled : Polled Text ℕ) × (poll_until (λ k. ok 7) slow_clock three_tries 5 ≡ some polled)
    × (polled.probes ≤ 2)
poll_until-ends_example =
    poll_until-ends (λ k. ok 7) slow_clock three_tries 1 5 (omega arith) (omega arith)

net_family : indexed_key_base (codes "net[n]") ≡ some (codes "net")
unfolding indexed_key_base
net_family = refl

split_indexed_key-expand_indexed_key_example :
    (expand_indexed_key (codes "net[n]") 12 ≡ ok (codes "net" ++ print_nat 12))
    × (split_indexed_key (codes "net" ++ print_nat 12) ≡ some (codes "net", 12))
unfolding is_digit
split_indexed_key-expand_indexed_key_example =
    split_indexed_key-expand_indexed_key (codes "net[n]") (codes "net") 12 net_family refl

-- A call that also sets other things.
abbrev with_hugepages : List (Text × JsValue)
with_hugepages =
    (codes "name", string (codes "web")) ∷ (codes "hugepages", string (codes "1024")) ∷ []

root_only_params-set_example : IsReported (λ v. []) [] (codes "hugepages") with_hugepages
unfolding is_root_only_qemu_option is_set_value
root_only_params-set_example =
    root_only_params-set (λ v. []) [] with_hugepages (codes "hugepages") (string (codes "1024"))
      refl (Memᴰ.tail (Memᴰ.head refl)) refl

abbrev deletes_lock : List (Text × JsValue)
deletes_lock =
    (codes "digest", string (codes "ab")) ∷ (codes "delete", string (codes "net0,lock")) ∷ []

root_only_params-delete_example : IsReported (λ v. []) [] (codes "delete") deletes_lock
unfolding is_root_only_qemu_option is_set_value is_space join
root_only_params-delete_example =
    root_only_params-delete (λ v. []) [] deletes_lock b',' (codes "net0") (codes "lock" ∷ [])
      (codes "lock") refl (refl, (refl, tt)) (Memᴰ.tail (Memᴰ.head refl)) refl
      (Memᴰ.tail (Memᴰ.head refl)) refl
