-- ===== src/Devices/Rtc.antt =====
-- lib/rtc.c: the clock chip's binary-coded decimals, and the line that is printed.
use raxzus_heap_research.Base.{ℕ, ◌+◌, ◌*◌, ◌/◌, ◌%◌, ◌^◌, ◌≤◌, ◌<◌, ◌≡◌, ◌≢◌, ◌↔◌, arith}
use raxzus_heap_research.Devices.Ports.{u8, u16}

unfoldable pub bcd_to_binary : ℕ → ℕ
bcd_to_binary bcd = u8 (bcd / 2 ^ 4 * 10 + bcd % 2 ^ 4)

-- The numbers that `print_rtc_time` shows, from the values of the chip's registers.
pub record ClockFace : Type 0 where
  pub day : ℕ
  pub month : ℕ
  pub year : ℕ
  pub hours : ℕ
  pub minutes : ℕ

unfoldable pub print_rtc_time : (cmos : ℕ → ℕ) → ClockFace
unfolding bcd_to_binary
print_rtc_time cmos = record {
  day = bcd_to_binary (cmos 0x07);
  month = bcd_to_binary (cmos 0x08);
  year = u16 (bcd_to_binary (cmos 0x09) + 2000);
  hours = u8 (bcd_to_binary (cmos 0x04) + 1);
  minutes = bcd_to_binary (cmos 0x02);
}

-- How the chip stores a number of two decimal digits.
abbrev pub to_bcd : ℕ → ℕ
to_bcd n = n / 10 * 16 + n % 10

-- `bcd_to_binary` reads every number of two digits, and maps onto nothing above 165.
pub bcd_to_binary-to_bcd :
    (n b : ℕ) → n < 100 → b < 256 → (bcd_to_binary (to_bcd n) ≡ n) × (bcd_to_binary b ≤ 165)
unfolding bcd_to_binary
bcd_to_binary-to_bcd n b h hb = (omega arith, omega arith)

-- With the chip at hour `h`, the hour shown is `h + 1`: 24 in the hour before midnight.
print_rtc_time_hours :
    (cmos : ℕ → ℕ) (h : ℕ)
    → h < 24
    → cmos 0x04 ≡ to_bcd h
    → ((print_rtc_time cmos).hours ≡ h + 1) × ((print_rtc_time cmos).hours < 24 ↔ (h ≢ 23))
unfolding print_rtc_time
print_rtc_time_hours cmos h lt e = (ground arith, ((λ x. ground arith), (λ x. ground arith)))
