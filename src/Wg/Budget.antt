-- ===== src/Wg/Budget.antt =====
-- crates/wg-core/src/budget.rs: every buffer size of the crate.
use tailfeather.Common.{ℕ, ◌+◌, ◌-◌, ◌*◌, ◌/◌}

abbrev pub inner_mtu : ℕ
inner_mtu = 1280

abbrev pub transport_header_len : ℕ
transport_header_len = 16

abbrev pub tag_len : ℕ
tag_len = 16

abbrev pub pad_to : ℕ
pad_to = 16

-- `usize::next_multiple_of`.
abbrev pub next_multiple_of : ℕ → ℕ → ℕ
next_multiple_of n k = (n + k - 1) / k * k

abbrev pub max_datagram_len : ℕ
max_datagram_len = transport_header_len + next_multiple_of inner_mtu pad_to + tag_len

abbrev pub replay_window_bits : ℕ
replay_window_bits = 1024

abbrev pub replay_window_words : ℕ
replay_window_words = replay_window_bits / 64
