-- ===== src/Lib.antt =====
-- Verification of esp-rf-ook2, the ESP32 firmware that receives a Nexus-TH thermometer at 433 MHz
-- and publishes what it measures.
--
-- The parts of the program. The receive loop of `main` (src/bin/main.rs) feeds the watchdog, sets
-- the clock by NTP once an hour, takes the pulse lengths that the RMT peripheral counted, and hands
-- them to `decode` (src/decoder.rs). A measurement that is decoded often enough goes into the
-- channel MQTT_CHANNEL; the task `mqtt_publisher` takes it out, prints it as JSON and hands it to
-- `Mqtt::publish` (src/mqtt.rs). The time comes from `Ntpc::get_time` (src/ntpc.rs). A task of
-- src/wifi.rs keeps the Wi-Fi connection. build.rs is the build script.
--
-- The modules and the code they model:
--   Sensor     `SensorData`, `NexusTHPayload` and the conversion between them (src/decoder.rs).
--              Children: the name's array, the temperature, and `equal`.
--   Decoder    `decode` of src/decoder.rs, a loop per function, composed in a result type that has a
--              case for a panic. Frame says without loops what a frame is and what each result tells;
--              Encode and Transmit are a sensor as the README describes it.
--   Station    the receive loop of `main`: `round` is one round, `run` a sequence of them, from the
--              answers of the hardware and the network to the new state and the actions, in order.
--              Children: one round's effect, when a message is sent, its pause, panics, the clock, and
--              the machine types of what it keeps.
--   Boot       `main` up to its loop, with `Wifi::new`: the actions in order, and whether it ends,
--              panics or waits. Link is the task `connection` beside it, which may panic as
--              well, SetUp what follows the first time.
--   Message    the topic and the JSON text of `mqtt_publisher`. Reader is a reader of the format,
--              written from the format alone; Length bounds the text.
--   Publisher  `mqtt_publisher`: a turn of its loop, and a sequence of them.
--   Channel    what MQTT_CHANNEL is, as a parameter, and what follows from its laws.
--   System     the loop and the publisher side by side, with MQTT_CHANNEL between them, as a step
--              relation: any interleaving. Refines takes the two apart again,
--              Reported goes from the posts to the frames, Progress excludes a deadlock.
--   Device     both tasks with their clients, over one network: the hourly check calls `get_time`, the
--              publisher calls `publish`. Simulates takes the network away, which leaves System; Logged
--              and Messages are about the messages among the calls, Arrives and Frames are about one that
--              comes through where the network is Accepting, PowerUp begins with the start of `main` and is
--              about the look-ups (LookUps).
--              NTP_SERVER is from src/lib.rs.
--   Shared     Device once more, but with the single calls of the two clients as steps, and the mutex
--              SHARED_STACK between them. Atomic says what keeps them apart, Turn and Runs go from there
--              to Device and Reaches comes back; Ends, Wants and Served are about the calls that come to
--              their end, Messages, Logged and Arrives about what is sent.
--   Life       the device through its starts: `main` up to its two tasks, the tasks as in Shared, their
--              panics and those of `connection`, and a reset at any time. Runs takes the tasks out of it; Each, Carries and
--              Logged are about what is sent, Starts and Recovers about a good start, Handled about what waits.
--   Network    what the two clients use of embassy-net, rust-mqtt, sntpc and the timers, as a
--              parameter; a client's cached address; `resolve` is the look-up that both begin with.
--              Answered is what calls come to, by the answers; Program is a client's call as a program of
--              single awaits.
--   Mqtt, Ntpc `Mqtt::publish` and `Ntpc::get_time`, with the calls they make, in order. Outcomes goes by
--              the result, Answered by the network's answers; Calls has them as programs.
--   Wifi       the task `connection`, the wait of `Wifi::new`, and `Wifi::wait_for_ip`. Link takes it
--              that every value of LINK_STATE is taken in time; Signal lets the two tasks interleave, so
--              that a value may be lost.
--   Build      build.rs: its two uses, by cargo and by the linker.
--   Text       texts as lists of bytes (of code points in Build), UTF-8, and the decimal print of
--              numbers.
--   Prelude    shared names, lists, results, bytes and machine words.
--   Tests      examples.
--
-- How the code is read. Numbers are natural numbers. The u64 and i64 differences, the product with
-- a million and the u16 difference are taken modulo the power of two, as in the release profile
-- (Cargo.toml sets overflow-checks to false there; a development build panics instead where one of
-- them wraps around); an i64 is its bit pattern.  `i8` signs are integers. The fields of a decoded
-- payload are within their widths by theorem. A panic is a result, not an error of the model.
-- `decimal` runs on fuel, one round per digit, with `n + 1` rounds for the number `n`, which is
-- enough as a number has at most that many digits. All other loops are structural: over the pulses,
-- the samples, the rounds, the deliveries, the answers that a wait gets.
--
-- What is a parameter. `PackedStruct` is the `unpack` that the crate packed_struct generates, with
-- the law that it reads the fields of five bytes at the bits that the attributes name, the most
-- significant bit first. `Jiff` is jiff's test of a timestamp and its printed time. `Network`
-- answers every call of the clients, as it likes. `Channel` is embassy's channel, with the laws of
-- a queue of limited length, whose send waits while it is full. `Mutex` is embassy's mutex, whose
-- lock waits while it is locked. `Signal` is embassy's signal, with the law that a new value takes
-- the place of the one that is there, and is taken once. The clock readings, the results of `select`
-- and the calls that may fail are fields of the records `Round`, `Readings`, `Answers`, `Delivery`
-- and `Radio`; in Device and Shared, what the clients return is computed.
--
-- How the tasks interleave. The executor switches between the tasks only where one awaits. What
-- they share is MQTT_CHANNEL and the network stack behind its lock, which a call of a client holds
-- from its beginning to its end. In System a turn of the publisher is two steps, its receive and
-- the rest, and the loop may do any number of rounds between them. In Device a round is two steps
-- as well, its hourly check with `get_time` and the rest. A call of a client is one step there. In
-- Shared every await of a client is a step, and the other task may take steps between any two; that
-- this comes to the steps of Device is a theorem, from the laws of the lock alone. In Life a reset,
-- or a panic of `connection`, may come between any two steps. In Wifi.Signal a round of `connection` is one step, as it signals
-- once and shares nothing else.
--
-- What is not modelled: logging; the sizes of buffers and of the heap; the configuration values
-- that are only passed on; the fields of the socket and of the MQTT client other than the address;
-- the watchdog's own clock, since nothing in the code bounds the time of a look-up or of a
-- connection (a reset may come at any time instead); what the panic handler prints; `net_task`,
-- which only runs the stack's runner; `custom_halt` and the timestamp hook of src/lib.rs, which only
-- call esp-hal. The copy of the crate radium in radium-0.7.0 is third-party code.
pub mod Prelude
pub mod Text
pub mod Sensor
pub mod Decoder
mod Tests
pub mod Ntpc
pub mod Station
pub mod Message
pub mod Publisher
pub mod Network
pub mod Mqtt
pub mod Wifi
pub mod Boot
pub mod Build
pub mod Channel
pub mod System
pub mod Device
pub mod Shared
pub mod Life
