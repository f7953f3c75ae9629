-- ===== src/Dongles.antt =====
-- Finding the dongles: `enumerateDongles` of agent/dongles_windows.go with its cache, `donglePorts` of
-- agent/portenum_windows.go, and `cstr` of agent/decoders.go. What librtlsdr and libusb answer is an
-- argument.
pub mod Cached
pub mod Dedupe
pub mod Distinct
pub mod Loading
mod Examples
use flightpatch.Common.{
  ℕ, zero, suc, ◌+◌, ◌*◌, ◌%◌, Bool, true, false, not, ◌&&◌, ◌||◌, List, [], ◌∷◌, ◌++◌, map, Option,
  none, some, ltb, ◌==◌, if◌then◌else◌, option_else, get_or, take, length,
}
use flightpatch.Decoders.{Dongle}
use flightpatch.Dict.{lookup, insert, retain, mem}
use flightpatch.Text.Decimal.{decimal}
use flightpatch.Text.{Str, codes, is_empty}

-- A device of libusb: its descriptor of 18 bytes where it can be read, its bus, and the port numbers
-- with their count (no more than the buffer has are read; an error counts as none).
pub record UsbDevice : Type 0 where
  pub descriptor : Option Str
  pub bus : ℕ
  pub port_count : ℕ
  pub port_numbers : Str

abbrev pub word_at : Str → ℕ → ℕ
word_at d i = get_or d i 0 + 256 * get_or d (i + 1) 0

-- The vendor and the product of an RTL2832U.
abbrev pub is_rtl : Str → Bool
is_rtl d = word_at d 8 == 0x0bda && word_at d 10 == 0x2838

-- `strings.Join(parts, ".")`
unfoldable pub join_dots : List Str → Str
join_dots [] = []
join_dots (s ∷ []) = s
join_dots (s ∷ (t ∷ rest)) = s ++ (b'.' ∷ join_dots (t ∷ rest))

abbrev pub port_path : UsbDevice → Str
port_path u =
    decimal (u.bus % 256)
    ++ (b'-' ∷ join_dots (map decimal (take u.port_count (take 8 u.port_numbers))))

-- The loop over the devices.
unfoldable pub rtl_ports : List UsbDevice → List Str
rtl_ports [] = []
rtl_ports (u ∷ rest) =
    option_else u.descriptor (rtl_ports rest)
      (λ d. if is_rtl d then port_path u ∷ rtl_ports rest else rtl_ports rest)

-- `donglePorts`: `usable` says that the library was found with its procedures and initialised.
unfoldable pub dongle_ports : Bool → List UsbDevice → List Str
dongle_ports usable devices =
    let ports = rtl_ports devices in
    if not usable
    then []
    else if length devices == 0 || ltb 10000 (length devices)
    then []
    else ports

-- `cstr`: the bytes in front of the first NUL. (With no NUL there is none to trim.)
unfoldable pub cstr : Str → Str
cstr [] = []
cstr (c ∷ s) = let rest = c ∷ cstr s in if c == 0 then [] else rest

abbrev pub Cache : Type 0
Cache = List (Str × Dongle)

-- What `rtlsdr_get_device_usb_strings` gives: the product and the serial, or an error.
abbrev pub Reading : Type 0
Reading = Option (Str × Str)

abbrev pub port_at : List Str → ℕ → Str
port_at ports i = get_or ports i []

abbrev pub dongle_of : ℕ → Str → Str × Str → Dongle
dongle_of i port t = record { index = i; serial = cstr (t.1); product = cstr (t.0); port = port }

-- A dongle whose strings cannot be read, by what was last read at its port.
abbrev pub recalled : ℕ → Str → Option Dongle → List Dongle
recalled i port none = []
recalled i port (some d) = if is_empty port then [] else (record d { index = i }) ∷ []

-- The body of the loop: what is listed, and the cache.
abbrev pub list_dongle : ℕ → Str → Reading → Cache → List Dongle × Cache
list_dongle i port none cache = (recalled i port (lookup port cache), cache)
list_dongle i port (some t) cache =
    let d = dongle_of i port t in (d ∷ [], if is_empty port then cache else insert port d cache)

-- The loop, from index `i`.
unfoldable pub list_dongles : ℕ → List Reading → List Str → Cache → List Dongle × Cache
list_dongles i [] ports cache = ([], cache)
list_dongles i (r ∷ rest) ports cache =
    let (now, cache') = list_dongle i (port_at ports i) r cache in
    let (more, cache'') = list_dongles (i + 1) rest ports cache' in (now ++ more, cache'')

-- Whether a port is still enumerated.
abbrev pub is_present : List Str → Str → Bool
is_present ports port = not (is_empty port) && mem port ports

-- `enumerateDongles`: `loaded` says that librtlsdr was found; none is listed otherwise, and the cache
-- stands.
unfoldable pub enumerate_dongles : Bool → List Reading → List Str → Cache → List Dongle × Cache
enumerate_dongles loaded readings ports cache =
    let (out, cache') = list_dongles 0 readings ports cache in
    if loaded then (out, retain (is_present ports) cache') else ([], cache)
