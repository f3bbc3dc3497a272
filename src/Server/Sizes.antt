-- ===== src/Server/Sizes.antt =====
-- server.cpp: `CalculateMessageSize` and `CalculateRemainingBytes`.
use nrp_reference.Base.{
  ℕ, ◌+◌, ◌-◌, ◌*◌, ◌/◌, ◌%◌, ◌^◌, ◌≤◌, ◌<◌, ◌≡◌, ◌⊎◌, true, arith, ltb, leb, ◌==◌, if◌then◌else◌,
}
use nrp_reference.Base.Int.{ℤ, pos, negsuc, ◌-ℤ◌}
use nrp_reference.Config.Servers.{is_positive}
use nrp_reference.Protocol.Layout.{message_header_size, reject_size}

-- An `int` as an `unsigned int`.
abbrev pub to_u32 : ℤ → ℕ
to_u32 (pos n) = n % 2 ^ 32
to_u32 (negsuc n) = 2 ^ 32 - 1 - n % 2 ^ 32

-- The size of the message with its header, or 0, and the number of parts that fit, which is the new
-- value of the reference parameter `messageCount`. The callers' sizes and counts are not negative.
unfoldable pub calculate_message_size : ℕ → ℕ → ℕ → ℕ × ℕ
calculate_message_size available_bytes message_size message_count =
    let whole = message_header_size + message_size * message_count in
    let fitting = (available_bytes - message_header_size) / message_size in
    if ltb available_bytes message_header_size
    then (0, message_count)
    else if leb whole available_bytes
    then (whole, message_count)
    else if fitting == 0
    then (0, message_count)
    else (message_header_size + message_size * fitting, fitting)

unfoldable pub calculate_remaining_bytes : ℤ → ℕ → ℤ
calculate_remaining_bytes available_bytes rej_count =
    if ltb 0 rej_count
    then available_bytes -ℤ pos (message_header_size + rej_count * reject_size)
    else available_bytes

-- For parts of at least one byte, the size never exceeds the space. It is 0 only where the space holds no
-- header, or some part is asked for and it holds none behind a header, and then the count is left alone; and
-- otherwise it is that of a header and the parts that fit, which are all that were asked for or as many as the
-- space holds.
pub calculate_message_size_lem :
    (available size count : ℕ)
    → 0 < size
    → let r = calculate_message_size available size count in
      (r.0 ≤ available)
      × (((r.0 ≡ 0)
            × (r.1 ≡ count)
            × ((available < message_header_size)
                ⊎ ((0 < count) × (available < message_header_size + size))))
          ⊎ ((r.0 ≡ message_header_size + size * r.1)
              × ((r.1 ≡ count)
                  ⊎ ((0 < r.1)
                      × (r.1 < count)
                      × (available < message_header_size + size * (r.1 + 1))))))
unfolding calculate_message_size
calculate_message_size_lem available size count h = grind arith

-- What is left is at most what there was, and never counted as positive beyond it.
pub remaining_le :
    (available : ℤ) (n r : ℕ)
    → available ≡ pos r
    → is_positive (calculate_remaining_bytes available n) ≡ true
    → (a : ℕ) × (calculate_remaining_bytes available n ≡ pos a) × (0 < a) × (a ≤ r)
unfolding calculate_remaining_bytes ◌-ℤ◌
remaining_le available n r e h = ground arith
