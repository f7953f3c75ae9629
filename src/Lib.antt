-- ===== src/Lib.antt =====
-- Flightpatch, the feed agent of the ADSBiq network (agent/): one process on a PC with RTL-SDR
-- dongles that registers the device, gives each dongle a role (ADS-B at 1090 MHz, UAT at 978 MHz,
-- VDL2 at 136 MHz), runs a decoder for it, relays what the decoder puts out to the network, and takes
-- commands with the replies to its heartbeats.
--
-- The parts and their files:
--   * Common and Text hold what all share: numbers, lists, and Go strings as lists of bytes with the
--     parts of packages strings, strconv and fmt that the agent calls.
--   * Config is agent/config.go: `DeviceConfig`, `roleFor`, `setRole`, the defaults of `LoadConfig`,
--     and `applyDefaultRole` of agent/main.go. Config/Save is `Save` and `EnsureDeviceIdentity`, with
--     the JSON of the settings and the random bytes as arguments; Config/Load is `LoadConfig` and
--     `defaultConfigPath`, on the disks that `Save` leaves.
--   * Control is agent/main.go: `applyConfig` (`apply_config`), `handleCommand` and the beats of
--     `phoneHome`. A reply of the server, the outcome of an update and whether a request gets through
--     are inputs of a beat. Control/Home is the loop of `phoneHome`, with `snapshot` of agent/stats.go,
--     as a step relation: the steps of the loop, and those of the relays and of the supervisor, which
--     come at any time. A call of `setLink` goes there by its atomic steps, from Stats/Race, and one
--     of `addBytes` or `setActive` by two, its change and its notification. The loads of a snapshot
--     are one step, and the request with the status is another.
--   * Stats is agent/stats.go. A method returns the changed record. Stats/Race takes `setLink` apart
--     into its atomic operations, as steps of threads under a schedule, and Stats/Race/Log is what
--     they come to.
--   * Beast is `beastReceiverFrame` of agent/forward.go and `avrToBeast` of agent/uat.go. Beast/Escape
--     has a reader of the Beast format, written down independently, which the frames are held
--     against.
--   * Eeprom is the parser and the writer of images in agent/eeprom_windows.go. Eeprom/Device is what
--     reads and writes a dongle (`writeDongleSerial`, `eepromSelfTest`), as a small monad over an
--     interface of the driver; Eeprom/Rules has what the driver is relied on for. Eeprom/Dump is
--     `dumpEEPROM`, and Eeprom/Printed has an independent reader of the lines that it prints.
--   * Relay is agent/forward.go: `dialLoop`, `countWriter`, `runForward`, over a list of sessions, each
--     with the outcomes of its calls. Relay/Vdl2 is agent/vdl2_forward.go, over a list of events, each
--     with the time and the write of its entry in the history; Relay/Uat is `runUAT` of agent/uat.go,
--     over the processes by their ids.
--   * Dongles is `enumerateDongles` of agent/dongles_windows.go with its cache, and `donglePorts` of
--     agent/portenum_windows.go; Dongles/Dedupe is `dedupeSerials` and `uniqueSerial` of
--     agent/decoders.go, and Dongles/Loading the search for librtlsdr.
--   * Children is the creation flags and the job object of agent/child_windows.go.
--   * Service is the start of agent/main.go (flags, the wait for the server, the registration) and the
--     requests of agent/device.go. Service/Modes has the modes that end before the registration, by
--     their flags, and Service/Main is `main` as a whole.
--   * Files is the file system, as contents by path with every earlier state of the disk, and Update is
--     agent/update.go: `semverNewer` and `parseVer`, `checkUpdate` by the outcome of its request, and
--     `selfUpdate` by the outcome of the download and of each operation on files.
--   * Dict is a Go map as an association list.
--   * Decoders is `run` of agent/decoders.go, with agent/receiver_inventory.go: the maps `active` and
--     `forwarders` are fields of `Manager`; a goroutine or process is named by what it was started
--     with, and `events` records what was started and stopped. `reconcile` is one round; its dongles
--     and their roles are arguments. Decoders/Desired describes what it is for, as a function from keys.
--     Decoders/Assign is `assignRoles`, which finds the roles; what a probe hears is an argument.
--     Decoders/Probe is `exePath` and the two probes of `probeRole`, over what their child processes
--     put out, and Decoders/Runnable is about the programs for the roles. Decoders/Supervise has the pauses of `superviseDecoder` and
--     `superviseUAT` and the command lines of `buildDecoderCmd`. Decoders/Run is the loop of `run` over
--     a list of ticks, each with what its round meets: it enumerates by Dongles, assigns the roles,
--     reconciles, and writes the file of the inventory.
--   * System puts parts together: a beat and the next round of `run`, and a start of the agent behind
--     another one.
--
-- How they interact: the beats of Control change the settings of Config and the enabled flag, which
-- the rounds of Decoders read; the relays count what they deliver in Stats, whose edges wake a beat.
--
-- Loops are recursions on their lists. The loop over the units of an EEPROM string has the length
-- byte for fuel, which is enough, since it moves two bytes in each round; `decimal` has the number
-- itself. Numbers that the source cannot make negative are natural numbers; the byte counter wraps
-- modulo 2 ^ 64. SHA-256 is an argument of the definitions that use it, with no assumption on it.
--
-- The loop of `uniqueSerial` has a number of rounds to go, which is that of the source. A loop that
-- may run forever (the relays, the supervisor, the beats) is a recursion on what its turns meet, and
-- the list may be of any length.
--
-- Not modelled: the encoding of JSON and the transport of HTTP, which are arguments; the rounding of
-- the rate in `snapshot` to a floating-point number; logging, except for the dongles, roles and lines
-- that the modes of `main` print; the system calls themselves (agent/usbreset_windows.go and the
-- calls of the driver), and the stubs for other platforms (agent/child_other.go,
-- agent/dongles_other.go, agent/eeprom_other.go, agent/portenum_other.go, agent/usbreset_other.go),
-- which do nothing or refuse.
pub mod Common
pub mod Text
pub mod Beast
pub mod Children
pub mod Config
pub mod Control
pub mod Stats
pub mod Eeprom
pub mod Dict
pub mod Decoders
pub mod Dongles
pub mod Files
pub mod Relay
pub mod Service
pub mod Update
pub mod System
