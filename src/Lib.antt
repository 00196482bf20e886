-- ===== src/Lib.antt =====
-- A model of the services of rpinode, a box that finds, reads and reports the building automation
-- devices of the site that it is carried to, with theorems on what they do.
--
-- The parts, and how they interact:
-- * Modbus (src/services/modbus_tools.py). A request goes to a gateway by `transaction`, which
--   spaces and retries the attempts of a TCP or an RTU-over-TCP framing; both read their reply from
--   a socket with `_recv_exact`. The reads, the writes and the blind probe stand on it.
--   Modbus/Error: `ModbusError`, the messages, `_classify_modbus_error`. Modbus/Socket: what a
--   connection delivers, and `_recv_exact`. Modbus/Wire: `_txn_on_socket`, `_tcp_transaction`,
--   `_rtu_over_tcp_transaction`, `crc16`. Modbus/Transaction: `transaction`. Modbus/Access:
--   `read_registers`, `read_bits`, `write_single_register`, `write_single_coil`. Modbus/Probe:
--   `probe_range`.
-- * MS/TP (src/services/bacnet_mstp.py). A session listens to the serial bus, decodes what it read,
--   diagnoses the bus, asks who is there by an external tool, and keeps a record of each station.
--   Mstp/Crc: `_crc8_header`. Mstp/Stream: `parse_mstp_stream`. Mstp/Health: `_bus_health` and
--   `format_health_stats`. Mstp/Iam: the lines of the tool. Mstp/Session: `_MstpSession`, with
--   `_sniff`, `_whois`, `_parse_line` and `_run`. Mstp/Control: `start_mstp_session` and
--   `stop_mstp_session`.
-- * Presence (src/services/presence.py) and Tracker (src/services/tracker.py). The site at hand is
--   a file and rows of the database of src/core/schema.sql; `label_current_location` writes both,
--   a person may force a site, a start of the system clears it, and `check_and_update_site` follows
--   the cell of the modem and the server.
--   Presence: the tables and `label_current_location`. Presence/Start: `force_site`,
--   `release_forced_site`, `clear_current_location_if_new_boot`. Tracker:
--   `check_and_update_site` and its helpers.
-- * IpScan (src/services/ipscan.py). The devices that a scan of the network found are merged into the
--   table of devices of the site: `update_db_results`.
-- * ModbusMgr (src/services/modbus_mgr.py). The box keeps templates of devices, the devices of a site
--   and the points that it follows; it shares templates with the fleet and reads the points over
--   Modbus. ModbusMgr: the tables. ModbusMgr/Templates: `save_template`, `delete_template`.
--   ModbusMgr/Fleet: `normalize_fleet_definition_to_local`, `format_local_template_for_fleet`,
--   `import_template_from_fleet`, `share_template_to_fleet`; its child Overview:
--   `get_templates_overview`. ModbusMgr/Points: the devices, `save_device_points_selection`,
--   `update_point_settings`. ModbusMgr/Reading: `read_single_point_live`,
--   `read_site_monitored_points_live`, `get_site_monitored_cached_values`, over its child Decode:
--   `read_point_value`, which calls the reads of Modbus. ModbusMgr/Reach: all these as steps of the
--   tables.
-- * RemoteLog (src/services/remote_log.py): `FleetLogHandler`, its queue and its worker.
-- * MobileAuth (src/services/mobile_auth.py): the access tokens and the signed session cookies.
-- * LiveView (src/services/live_view.py): `handle_action` and the automatic stop of `run`.
-- * Shortcuts (src/services/shortcuts.py): `valider`, the table of shortcuts, `current_routes`, which
--   NetworkConfig announces, and `sync_payload`.
-- * NetworkConfig (src/services/network_config.py): `publish_tailscale_routes`,
--   `_apply_eth0_profile`; its child Profiles: `apply_site_network_profiles`,
--   `save_site_network_profiles`.
--
-- Shared modules: Rows (the statements of SQL on a table as a list of rows, loops over fetched rows,
-- tables with distinct numbers), Sort (sorting by insertion, the order of texts), Prelude (names of the
-- libraries, Boolean tests, lists, chains of options, integers), Bits and Checksum (the shift register of both checksums), Text (texts as lists of code
-- points, for the code that searches, prints and parses them), Dict (`dict` as an association list).
--
-- State is passed on and returned; an exception is a value, and a step of a program that another
-- thread, the network, the clock or the operating system decides is an argument. A connection is the
-- list of what it will deliver, a session has the list of its rounds to come, and a transaction has
-- a function from the number of the attempt to what the network does. The lock of a gateway makes
-- the transactions on it follow each other, so one call is one function; the lock of a session does
-- the same for its parts.
--
-- Fuel: `parse_loop` has one round more than the stream has bytes, and each round moves on by one
-- byte at least; `scan` of the probe has two rounds more than the range has addresses, and each block
-- has one address at least; the digits of a printed number have one round more than the number. That
-- these are enough is part of the results on the decoder and on the probe.
--
-- A statement of SQL that breaks a constraint raises, and the connection takes back what was written:
-- the call has no result. A floating-point number is given by its 64 bits, and its arithmetic and
-- printing are arguments. JSON that the code prints and parses itself stands for what it holds. SQLite
-- leaves the order of rows with equal keys open; here they keep the order of the table. A key of a
-- register of a template is there with a value or not at all, never with `null`.
--
-- Times are natural numbers, in milliseconds for the transaction and in seconds elsewhere. A
-- percentage is compared without its division. Digits and white space of a text are those of ASCII.
--
-- Not modelled: the sending half of a socket beyond the bytes that are sent, the writing of files,
-- logging, the polling of points in a live view, and the services, web pages and programs that the
-- files above only call: the fleet server, the modem tools, the serial port, the discovery tool, the
-- commands of the system, and the hashes and signatures are arguments. For the tracker, the network
-- profiles are effects.
pub mod Prelude
pub mod Bits
pub mod RemoteLog
pub mod Rows
pub mod Shortcuts
pub mod Sort
pub mod Text
pub mod Dict
pub mod Checksum
pub mod Mstp
pub mod Modbus
pub mod LiveView
pub mod MobileAuth
pub mod ModbusMgr
pub mod NetworkConfig
pub mod Presence
pub mod Tracker
pub mod IpScan
