-- ===== src/Lib.antt =====
-- gPlug-mini is firmware for an ESP32 that reads a smart meter's DLMS telegrams from a serial
-- line and publishes each cycle of readings to an MQTT broker, for Home Assistant. This library
-- models the program's own logic, in main/, and proves what its parts promise.
--
-- The parts, in the order in which a telegram meets them. app_main.cpp collects bytes until the
-- line is silent (App.pass, Aggregator.cycle_ended, of aggregator.h), drops closing flags in
-- front (Framing.leading_flags, of framing.h), and calls the DLMS parser until the buffer yields
-- no more (App.parse_from). Each value goes through on_value (App.on_value): the register table
-- of obis_map.cpp (Obis) names it, and it joins the cycle's set, the class CycleSet of
-- aggregator.h (CycleSet), whose text is the state message. publish_cycle (App.publish_cycle)
-- announces the entities of ha_discovery.cpp (Discovery) once per broker session and sends the
-- message. Configuration comes from config.h (Config) and its storage config_nvs.cpp
-- (Config.Store); the portal of provisioning.cpp reads a form (Form: url_decode, field) and
-- stores it (Portal: save_post); its access point's identity, of provisioning.h, and its DNS
-- replies are in Softap, with the task that serves them (Softap.Serve). ota.h and ota.cpp update
-- the firmware on a command (Ota), which net.cpp's handler of MQTT events receives (Net; Net.Wifi
-- has that of WiFi's); indicator.h and indicator.cpp show the device's state on an LED
-- (Indicator); the bytes come from meter_uart.cpp or from the simulated sim_source.cpp (Source),
-- whose replay the loop can run over (App.Simulated). app_main's start (Start) loads the
-- configuration and either raises the portal (Portal.Run, provisioning_run) and restarts, or
-- joins the network (Net.Setup) and enters the loop. The start waits for an address over the
-- events of WiFi that it is given (Net.Wifi.wifi_wait). Device puts the running parts together:
-- the main loop, the handlers of events, the download task and the LED take turns in any order.
--
-- State. App.App holds the file's variables of app_main.cpp and those of its loop;
-- CycleSet.CycleSet holds the class's members, with the text of json_ up to its NUL and the first
-- count_ rows of labels_; Portal.Portal holds the portal's variables and the flash; Ota.Ota and
-- Net.Net hold those of ota.cpp and net.cpp, with the tasks that wait or run counted;
-- Indicator.Led, Source.Uart and Source.Sim those of the indicator, the line and the replay;
-- Device.Device has one of each of those that run together, and Start.World and Portal.Run.Radio
-- hold what a start and a portal meet. An operation takes the state and gives the new one, with a
-- list of effects where it publishes. Texts are lists of codes without the NUL; a function that
-- fills a buffer gives the text that the buffer then holds, and snprintf's truncation is written
-- out (Base.CString).
--
-- Readers. Json is a reader of JSON, written from the format's definition and apart from the
-- code, with which the texts that the device publishes are read back: CycleSet.Read and App.Reads
-- have the state message, CycleSet.Objects the object that it holds as a quotient which forgets
-- the order of the members and nothing else, CycleSet.Unread the text of a value that was cut,
-- Discovery.Read the announcements, Device.Reads and Device.Subscriber both of them together. It
-- has no escapes and no exponents, so that a text with one of these is not read.
--
-- Parameters. The DLMS parser is a function of its own state and of the bytes it is given; the
-- text of a double ("%.3f") is a function, which is taken to give no empty text where that
-- matters, and a number of JSON where the message is read, as printf does for every finite
-- number; NVS is the record Config.Store.Nvs with the laws Config.Store.NvsLaws; what the HTTP
-- server delivers is a list of received pieces; time, received bytes and the broker's state are
-- the inputs of a pass, and an event's handler and a pass of the loop are one step each, so that
-- in Device the broker's state does not change within a pass; App.Looks has publish_cycle with
-- each of its looks at the broker on its own. The outcomes of driver calls are given as values;
-- the watchdog's initialisation is a function with the laws Start.Watchdog.InitLaws.
--
-- Bounds. Times are 32-bit and wrap (Aggregator.sub32); a register's raw value wraps at 2 ^ 64
-- (App.raw_from). The one fuel of the code's loops is that of App.parse_from, the length of the
-- buffer, which is enough because each call that goes on consumes a byte; the reader of JSON has
-- twice the length of its text and two, more than a text of the device nests and lists. The loops
-- that wait go over the turns that they are given (Portal.Run.wait, Net.Wifi.wifi_wait,
-- App.Passes.passes, Softap.Serve.dns_serve, Device.device_run). Other loops are structural.
--
-- Not modelled: logging, but for the dumps of a burst that does not decode (App.Dump), the
-- feeding of the watchdog and delays; drivers, sockets, the HTTP server, the DLMS parser and the
-- download itself, which are not part of the repository.
pub mod Base
pub mod Json
pub mod Framing
pub mod Aggregator
pub mod CycleSet
pub mod Obis
pub mod Discovery
pub mod Config
pub mod Form
pub mod Portal
pub mod App
pub mod Ota
pub mod Indicator
pub mod Softap
pub mod Source
pub mod Net
pub mod Start
pub mod Device
