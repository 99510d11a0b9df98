-- ===== src/Lib.antt =====
-- Verification of the Python package cyclarity_in_vehicle_sdk: functional models of its parts and
-- theorems about them. Paths are those of the package, below cyclarity_in_vehicle_sdk/.
--
-- Python is modelled in Python.antt: a method is a function from the state of the objects that it
-- works on to a result and the next state, and a result is a value, an exception (`Exn`), or
-- `stuck`, which is no behaviour of the program: a loop of the model has no fuel left. What was
-- written before an exception stays written. Bytes and texts are lists of numbers (Python/Bytes),
-- `int(text, base)` is written out for ASCII texts without a minus sign (Python/Number). Times are
-- natural numbers of milliseconds. Messages of logs and exceptions are left out.
--
-- Which file models which part:
-- - Communicator.antt: communication/base/communicator_base.py, what a protocol utility may use of
--   any communicator, as a record of operations on a state that only the communicator knows.
-- - Uds/Client.antt: `_send_and_read_raw_response` and `_send_and_read_response` of
--   protocol/uds/impl/uds_utils.py. The loop `while True` takes one unit of fuel a round; a round
--   consumes a message or ends the attempt, so fuel beyond the messages to come is enough.
--   Uds/Client/Delivery.antt follows a response back to the calls on the link, with the conditions on
--   the states before and after a method of Python/Triples.antt.
-- - Uds/Dids.antt: `_split_dids` of the same file.
-- - Uds/Services.antt, Uds/Sessions.antt, Uds/Authentication.antt: the services of `UdsUtils`. The
--   package udsoncan, which makes the requests and reads the responses, is the record of functions
--   of Uds/Udsoncan.antt, and every definition takes one.
-- - Uds/Security.antt: the key algorithms of protocol/uds/models/uds_models.py.
-- - Plugin/Crash.antt, Plugin/Reset.antt: the detectors of plugin/crash_detection, and
--   plugin/recover_ecu and plugin/reset.
-- - Can.antt: `CanCommunicatorSocketCan` of communication/can/impl/can_communicator_socketcan.py
--   over a bus of python-can, a parameter with a clock. Its loops take fuel; Can/Deadline shows
--   how much is enough over a bus with so many messages still to come.
-- - IsoTp.antt: `IsoTpCommunicator` of communication/isotp/impl/isotp_communicator.py, whose state
--   holds that of a CAN communicator; the stack of the package isotp is a parameter.
-- - Doip.antt: reading messages and the requests over a connection, of
--   protocol/doip/impl/doip_utils.py; Doip/Link.antt: `DoipCommunicator` of
--   communication/doip/doip_communicator.py, which is a communicator again and so a data link layer
--   of the UDS client; Doip/Requests.antt: the requests over a raw socket, and the cache of TCP
--   communicators. The package doipclient is a parameter; a round of the reading loop takes one
--   unit of fuel and, but for the first, one reception.
-- - Tcp.antt: `TcpCommunicator` of communication/ip/tcp/tcp.py over a socket as a parameter, which
--   fills the interface that the DoIP communicator takes.
-- - Multicast.antt: `MulticastCommunicator` of communication/ip/udp/multicast.py, over the sockets of
--   Python as a parameter.
-- - Raw.antt: what communication/ip/base/raw_socket_base.py gives the raw sockets; Raw/Layer2.antt and
--   Raw/Layer3.antt: the two classes of communication/ip/raw/raw_socket.py. A round of the search takes
--   one unit of fuel; over a wire on which a receive takes time, more fuel than the timeout is enough.
--   Doip/Requests/Sniffed.antt puts the requests of DoIP on the Layer 3 socket.
-- - SerialShell.antt, SerialShell/Login.antt, SerialShell/Command.antt: `SerialDeviceShell` of
--   utils/shell_device/impl/serial_device_shell.py over a serial port as a parameter. A round of a loop
--   takes one unit of fuel; SerialShell/Talking says how many rounds the login takes. Python/Text.antt
--   holds the pieces of its regular expressions.
-- - Config.antt: configuration_manager/models.py and configuration_manager/actions.py;
--   Config/Manager.antt and Config/Report.antt: the actions and the report of `ConfigurationManager` in
--   configuration_manager/configuration_manager.py, over the calls on pyroute2 and nmcli that
--   Config/Netlink.antt lists. Config/Store.antt says what the theorems take of them.
-- - Udp.antt: `UdpCommunicator` of communication/ip/udp/udp.py over a socket as a parameter.
-- - Wlan.antt: the elements and the security of `WiFiPacket` in communication/wlan/wlan_communicator.py;
--   Wlan/Monitor.antt: `WiFiRawMonitorSocket` of the same file, over its system calls as a parameter;
--   Wlan/Fields.antt: the adapters of communication/wlan/mac_parsing.py, the channels of
--   communication/wlan/radiotap_prasing.py and the nonce of communication/wlan/crypto_utils.py.
-- - Someip.antt: the parsing of offers in protocol/someip/impl/someip_utils.py, and the records of
--   protocol/someip/models/someip_models.py; Someip/Client.antt: `find_service`, `subscribe_evtgrp`
--   and `method_invoke`. The layers of py_pcapplusplus are a parameter.
-- - RangeSet.antt: utils/custom_types/range_set.py, sets of numbers written as ranges.
-- - Address.antt: `build_ip` of utils/ip/ip_utils.py.
-- - Examples: runs of the models on concrete inputs.
--
-- Not modelled: the text forms of objects (`__str__`), logging, and the schemas of pydantic; sending and
-- receiving of `WiFiRawSocket` and the frame formats of communication/wlan/mac_parsing.py, which the
-- package construct reads and writes; the shells over SSH and ADB in utils/shell_device, utils/usb and
-- utils/crypto, which mostly call third-party code; plugin/plugin_manager.py and the relay plugin; and
-- external/, a copy of python_radiotap.
pub mod Prelude
pub mod Python
pub mod Communicator
pub mod Uds
pub mod Can
pub mod IsoTp
pub mod Doip
pub mod Plugin
pub mod Tcp
pub mod Multicast
pub mod Udp
pub mod Wlan
pub mod Someip
pub mod RangeSet
pub mod Raw
pub mod SerialShell
pub mod Config
pub mod Address
pub mod Examples
