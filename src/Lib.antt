-- ===== src/Lib.antt =====
-- Verification of the sensaurus firmware: devices (AVR boards with sensors and actuators) talk to
-- a hub (an ESP32) over half-duplex serial lines, one line of text per message, with a checksum
-- behind a mark `|`. The hub polls its devices and keeps what they say of themselves.
--
-- The parts, and the modules that model them:
--
-- - CText: what the sources use of the C library on strings (strtol, strncpy, strcmp, the string
--   in a buffer), and the printing of numbers by the Arduino core, which is a record of documented
--   behaviour (CText.Number.Printer). A string is the list of its characters before the NUL, a
--   `char` array the list of all its characters.
-- - Crc: `crc16_update` of libraries/CheckStream/CheckStream.cpp, with its wrap to 16 bits.
-- - CheckStream: libraries/CheckStream/CheckStream.h, with and without USE_CHECK_STREAM_BUFFER.
--   Its state is the record CheckStream, and `write` is the handler of a byte. The members that
--   only pass a call through are left out.
-- - Sensaur: libraries/Sensaur/Sensaur.cpp. `checksum_ok` is checksumOk and `parse_message` is
--   parseMessage, which returns its result, the buffer with the NULs that it writes, and the
--   offsets of the arguments. Both run structurally over the message and need no fuel. The type
--   Board says whether a `char` is signed and how wide an `int` is.
-- - SensaurDevice: libraries/SensaurDevice, the records Component and Device, with the float type
--   as a parameter.
-- - ProcessingQueue: libraries/queue/ProcessingQueue.cpp over the record Fifo, which is what the
--   third-party ArduinoQueue promises.
-- - HubSerial: libraries/HubSerial and libraries/SimpleSerial. The receive ring is the record
--   HubSerial; the pin is a list of events when writing, with the cycle counts that WAIT waits
--   for, and when reading a list of polls and then its level at each number of cycles. Changing
--   and reading a pin take no time; interrupts are left out.
-- - Sketch: the sketches device-relay, device-test, device-co2, device-o2, device-dht22,
--   device-tsl2561 and device-veml7700. `incoming` is processIncomingByte, over the sketch's
--   processMessage (`relay_message`, `test_message`, `co2_message` and so on); the children Relay,
--   Test, Sensing, Dht22 and Oxygen hold a sketch's globals in a record. `none` stands for a write
--   outside an array or a pointer that was never set. Identity is getDeviceId. The record Core is
--   what the Arduino core prints; sensors, EEPROM and generator are parameters.
-- - Hub: hub-esp32/hub-esp32.ino, its polling. `wait_for_response` is waitForResponse,
--   `process_message_from_device` is processMessageFromDevice and `drop_silent` is the check for
--   devices that are gone. The bytes of an answer are a list with the time at which each was read.
--   Publish is hubPublish, whose loop over the pieces of a message runs on as much fuel as the
--   message has characters, which is enough since each piece has one at least; Actuators is
--   updateActuators. SwSerial is the same with USE_SWSERIAL, where each poll of the line is an
--   entry of a list; Report is sendDeviceInfo, what sendSensorValues sends, and sendStatus;
--   Network is mqttReconnect, checkNetwork and WiFiEvent, whose loop makes three rounds at most,
--   which is its fuel; Control is runCommand, processByteFromComputer and handleIncomingMessage
--   over the record of the globals; Loop is loop, with what one pass meets as the record Pass, and
--   updateTime, whose fuel is its eleven rounds. Calls of what Report models are events there.
--   Start is setup, in the three build flavors, over the same record; its loop for WiFi makes four
--   rounds at most, which is its fuel. Ota is the callbacks of setupOTA.
-- - Bridge: hub-bridge/hub-bridge.ino. `process_device_message` is processDeviceMessage,
--   `process_byte_from_computer` is processByteFromComputer, `poll_devices` is doPolling.
-- - Config: the configuration of hub-esp32/hub-esp32.ino, initConfig and the callbacks of the BLE
--   characteristics. settings.h, which is not in the repository, is the record Settings.
-- - Polling: the hub and the sketch of the CO2 sensor at the two ends of a line.
--
-- The parts interact through texts: what a CheckStream sends is what checksumOk and parseMessage
-- read, and the fields that parseMessage finds are what setInfo takes apart.
--
-- Not modelled: what the hub only displays (dumpConfig, displayFreeHeap, testLEDs), third-party
-- libraries (ArduinoJson, PubSubClient, NTPClient, the sensor drivers), web pages and scripts, and
-- the hardware.
pub mod Prelude
pub mod CText
pub mod Config
pub mod Crc
pub mod CheckStream
pub mod Sensaur
pub mod SensaurDevice
pub mod ProcessingQueue
pub mod HubSerial
pub mod Sketch
pub mod Hub
pub mod Bridge
pub mod Polling
