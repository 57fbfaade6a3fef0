-- ===== src/Local/Direct.antt =====
-- The direct relay of a host that is not blocked, src/raw_tcp.cpp (impl_local_relay): two loops,
-- one for each direction, whose awaited reads and writes end in any order.
pub mod Order
pub mod Farewell
pub mod Countdown
-- One direction. `read_in` is what was read from its source, `holds` what is left of the buffer that is
-- being written, and `passed` what went out.
use ssl_socks.Base.{
  ℕ, Bool, true, false, Option, none, some, List, [], ◌∷◌, ◌++◌, ◌==◌, if◌then◌else◌, length, take,
  drop, Bytes,
}
use ssl_socks.Data.{read_buffer_size}
use ssl_socks.Local.{Action, give_up}

pub record Line : Type 0 where
  pub read_in : Bytes
  pub holds : Option Bytes
  pub passed : Bytes
  pub alive : Bool

-- What an awaited operation gives: some bytes of those that have come, a count of bytes written, or
-- a system_error.
pub data LineEvent : Type 0 where
  line_reads : Bytes → LineEvent
  line_writes : ℕ → LineEvent
  line_breaks : LineEvent

abbrev pub new_line : Line
new_line = record { read_in = []; holds = none; passed = []; alive = true }

-- The catch ends the loop.
abbrev pub break_line : Line → Line
break_line l = record l { alive = false }

-- `buf->resize(READ_BUFFER_SIZE)`, a read, and `buf->resize(len)`, unless a write is awaited.
unfoldable pub read_line : Bytes → Option Bytes → Line → Line
read_line chunk (some buf) l = l
read_line chunk none l =
    let got = take read_buffer_size chunk in
    record l { read_in = l.read_in ++ got; holds = some got }

-- The write of the whole buffer, and the test of its length.
unfoldable pub write_line : ℕ → Option Bytes → Line → Line
write_line n none l = l
write_line n (some buf) l =
    let l' = record l { passed = l.passed ++ take n buf } in
    if n == length buf
    then record l' { holds = none }
    else break_line (record l' { holds = some (drop n buf) })

unfoldable pub line_step : LineEvent → Line → Line
unfolding read_line write_line
line_step (line_reads chunk) l = if l.alive then read_line chunk l.holds l else l
line_step (line_writes n) l = if l.alive then write_line n l.holds l else l
line_step line_breaks l = break_line l

unfoldable pub line_run : List LineEvent → Line → Line
line_run [] l = l
line_run (e ∷ es) l = line_run es (line_step e l)

-- Both directions, by `dir` of the source: `true` from the remote host to the client.
pub record Direct : Type 0 where
  pub to_client : Line
  pub to_remote : Line
  pub told : List Action

abbrev pub new_direct : Direct
new_direct = record { to_client = new_line; to_remote = new_line; told = [] }

-- What a loop does when it ends: the catch, once.
abbrev pub farewell : ℕ → Bool → Bool → List Action
farewell s true false = give_up s
farewell s before after = []

unfoldable pub direct_step : ℕ → Bool → LineEvent → Direct → Direct
unfolding line_step
direct_step s true e r =
    let l = line_step e r.to_client in
    record r { to_client = l; told = r.told ++ farewell s r.to_client.alive l.alive }
direct_step s false e r =
    let l = line_step e r.to_remote in
    record r { to_remote = l; told = r.told ++ farewell s r.to_remote.alive l.alive }

unfoldable pub direct_run : ℕ → List (Bool × LineEvent) → Direct → Direct
direct_run s [] r = r
direct_run s ((dir, e) ∷ es) r = direct_run s es (direct_step s dir e r)
