-- ===== src/Lib.antt =====
-- A library of k8s-jumperless, a Kubernetes operator for Jumperless boards, and of the tools that
-- stand in for a board.
--
-- The operator (internal/controller) asks a board over its serial port for its nets and its
-- configuration, reads the text that the board prints (internal/controller/local/local.go) and
-- keeps what it read in the status of a custom resource (api/v5alpha1/jumperless_types.go). The
-- proxy (utils/internal/proxy) stands between a client and a board and records their exchanges;
-- the emulator (utils/internal/emulator) plays a recording in place of a board.
--
-- The emulator command starts and stops the emulator; the proxy command runs the proxy and adds
-- what it has recorded to the emulator's mappings in a configuration file; the generator sends
-- configured requests to a board. They are commands of one program (utils/cmd).
--
-- Base: native numbers with their tests, lists, the integers, and results that may be errors.
-- Base.Calls: logs of calls that acquire and release resources, and what it is for such a log to
--   grow by calls that release all they acquire. Device.Port.Tidy and Host.Logged have the laws
--   that say which calls of a parameter show in a log.
-- Strings: the functions of Go's packages strings and strconv that the code calls, on lists of
--   bytes: Affix (HasPrefix, TrimPrefix, ...), Number (ParseInt for 32 bits), Space (TrimSpace,
--   with the white space of Unicode in UTF-8), Split (Cut, Split, SplitN). Each has its laws.
-- Api.Types: the structs of api/v5alpha1/jumperless_types.go.
-- Api.Config: SetEntry, SetConfigEntry and UpsertConfig of the same file. SetConfigEntry calls
--   SetEntry on a copy of a section, which shares the entries and not the length: the model keeps
--   of the changed entries as many as there were.
-- Local.Nets: parseNetLine and parseNets of internal/controller/local/local.go; Sound, Reported,
--   Printed, RoundTrip, Colored, Uncover, ColorLine and Repeated prove what they return.
-- Local.Config: parseConfig of the same file. Its map of maps is a list in the order of the
--   first writes, and the order of the range over it is a function that the theorems quantify.
-- Device.Port: JumperlessPort of jumperless/jumperless-port.go over Serial, the record of what the
--   package go.bug.st/serial and the clock do. The loop of reads of execRawCommand has no bound
--   and runs on fuel; with more fuel than the board sends pieces it ends as the code does.
-- Device.Board: jumperless/jumperless.go, with the list of ports and ansi.Strip as parameters.
-- Local.Commands: GetDAC, GetNets and GetConfig of internal/controller/local/local.go.
-- Controller: reconcileLocal and reconcileRemote of
--   internal/controller/jumperless_controller.go; Controller.Reconcile: Reconcile and patchStatus.
--   The parameters are Meta, the functions of apimachinery on conditions, and Cluster, the client.
--   Ready, Complete, Patched and Settling are about what ends up in the status, Tidy and Closed
--   about the ports.
-- Host: pseudo terminals and links, which are parameters. Viper: the settings and the configuration
--   files of github.com/spf13/viper, which are parameters.
-- Emulator.Mappings: the types and the operations of utils/internal/emulator/config/config.go;
--   Emulator.Config: its NewFromViper.
-- Emulator.Lifecycle: New, Start, Stop, tryCleanup and GetPortName of
--   utils/internal/emulator/emulator.go. What the goroutine does to the world until it ends is an
--   argument of Stop. Emulator.Command: runEmulator of utils/cmd/emulator/emulator.go.
-- Emulator.Respond: findResponse, sendResponse and handleRequests of
--   utils/internal/emulator/emulator.go, over a Terminal, the record of what the pseudo terminal,
--   the clock and the random numbers do. A counter of requests is a pattern of 64 bits, and a
--   negative index is a panic. A delay and its jitter are added as int64s, with wrap-around.
--   Untimed compares mappings that differ in delays and jitters.
-- Proxy.Quoting: strconv.Quote and strconv.Unquote, which are parameters; the law that the
--   theorems use is that Unquote undoes Quote.
-- Proxy.Recorder: NewRecorder, Run and GetRecording of utils/internal/proxy/recording.go, as a
--   machine over the events that its channels bring, with the readings of the clock. What
--   time.Since gives is the nearest int64 to the difference of two readings.
-- Proxy.Replay: what the emulator makes of a recording, and Session of a whole one; Proxy.Timing:
--   with which delays.
-- Proxy.Config: utils/internal/proxy/config/config.go.
-- Proxy.Goroutines: proxyVirtualToReal, proxyRealToVirtual and the recorder's loop of
--   utils/internal/proxy/proxy.go and recording.go as a step relation. A send on an unbuffered
--   channel and its receive are one step; a read gives a piece of the buffer or nothing. Order has
--   the invariant, Return what is returned, Hang and Drain when Run can and cannot return.
-- Proxy.Run: Run of utils/internal/proxy/proxy.go around its goroutines, which are here what happens
--   to the world between two calls of Run, and the events that the recorder received. If wg.Wait
--   never returns, which Proxy.Goroutines.Hang shows to be possible, the outcome of Run is none and
--   no deferred function is called.
-- Proxy.Save: saveRecording and findConfigFile of utils/cmd/proxy/proxy.go; Proxy.Command: the
--   command itself, Saved what it leaves in the file that Found describes, Replayed what the
--   emulator makes of that file once it is read again, which loses the jitters.
-- Generator.Config and Generator.Run: utils/internal/generator/config/config.go and generator.go.
--   What the goroutine that closes the port has done by the next call is a function on the world.
--   Generator.Command: runGenerator of utils/cmd/generator/generator.go.
-- Command: loadConfig, showConfig, generateConfig, the checks of the flags before a command, and
--   execute, of utils/cmd/root.go, and the exit status of utils/cmd/main.go. How cobra runs a
--   command is a parameter.
-- Tests: concrete parameters, runs of the definitions, and instances of the theorems.
--
-- All other loops are recursions on the list they go through. What is only logged is left out, and
-- so are the text of an error, which is the case that it reports, the mutex of a port, and the
-- guards against nil pointers that no caller hands over.
--
-- Not modelled: the declaration of the flags, the signals that end a command, the entry point of
-- the manager (cmd/main.go), which wires controller-runtime, and the deep copies and registrations
-- that are generated.
pub mod Base
pub mod Strings
pub mod Api
pub mod Local
mod Tests
pub mod Emulator
pub mod Proxy
pub mod Device
pub mod Controller
pub mod Host
pub mod Viper
pub mod Generator
pub mod Command
