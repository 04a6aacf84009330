-- ===== src/Lib.antt =====
-- yg-vcs, the Python port of a control system for automatic forklifts in a warehouse.
--
-- Vehicles hold TCP connections to the server (app/tcp). A connection's bytes are cut into frames,
-- a frame's number fields and checksum are read, answers are matched with the requests that wait
-- for them, and heartbeats change the tables. The services (app/services) create tasks between
-- storage places, choose the next task of a vehicle, send it as frames and take the vehicle's
-- reports.
--
-- Prelude is shared: tests, lists, bits and calls that may raise. The other files:
--   * Tcp/Bytes is app/tcp/byte_process.py: hex texts, integers and slices of frames.
--   * Tcp/Crc is app/tcp/crc.py, Tcp/Codec is app/tcp/frame_codec.py.
--   * Tcp/Checked is the part of app/tcp/byte_process.py on frames with a CRC.
--   * Tcp/Futures is app/tcp/future_manager.py and json_msg.py; Tcp/Channels is
--     app/tcp/channel_manager.py and tcp_client.py; Tcp/Server is app/tcp/frame_server.py; Tcp/Dict
--     is the dict and set that they use.
--   * Tcp/Constants, Tcp/Flags and Tcp/Responses are app/tcp/constants.py, flags.py and
--     response_parser.py.
--   * Ids is app/utils/id_utils.py.
--   * Store/Query, Store/Tables and Store/Repos are app/repositories/base.py, the rows of
--     app/models/tables.py that the logic reads, and the named queries of app/repositories.
--   * Tasks/Sequences is app/services/sequence_service.py; Tasks/Create and Tasks/Pickup are
--     create_task and edit_and_get_an_task of app/services/task_op_service.py.
--   * Tasks/Templates is app/services/task.py, with the forms of app/schemas/task.py.
--   * Vehicle/Memory is app/services/device_memory_table.py, Vehicle/Frames is
--     app/services/send_task.py, Vehicle/Reports is app/services/user_task_proxy.py, Vehicle/Camera
--     is app/services/camera_table.py, with Places for the change of a place, and Vehicle/Heartbeat
--     is app/tcp/heartbeat_processor.py, which puts them together.
--   * UserTasks is app/services/user_task.py: Attempt is a handler with early returns, Guards and
--     Orders are what an operation checks and makes, Sending, Queue, States and Control are the
--     operations, and Steps is the service as a step relation.
--   * Devices is app/services/device.py on the table of devices and its copies in Redis, and
--     Devices/Params its commands to a vehicle.
--   * Learned is the import of app/services/process_service.py, app/services/forklift_line.py with
--     its repository, and init_location of app/services/device.py.
--   * Sites is app/services/storage.py on the status of places, by Area for a template's side
--     whose sites all have a code, and on bound devices.
--   * Examples runs the theorems at concrete inputs.
-- A child module of one of these states what is proved about it.
--
-- Numbers are natural numbers: the values that the code computes from bytes are not negative, and
-- 32-bit wrap-around is written out. Texts whose characters are read are lists of code points; case
-- and encoding are those of ASCII and latin-1. A call that may raise has a result of Raises; the
-- class of an exception is not kept, as the code never looks at it.
--
-- The loop of the frame buffer runs on fuel, the length of the buffer: each round takes at least
-- five bytes. The digits of a number run on the number itself. All other loops are structural.
--
-- A table is a list of rows in an order that no theorem limits. A call of a service is one
-- transaction, and other calls do not come between its statements; the columns that only record
-- who changed a row and when are left out. Message texts are kept as their keys. Redis is kept as
-- the keys that a service reads back, an expiry being a change between two calls. The clock, the
-- random numbers, new ids, floats, whether the database takes an import, the handler of a
-- connection's frames and the answers of a vehicle to a sent frame are arguments.
--
-- Not modelled: the web layer (app/routers, app/main.py, and of app/schemas all but the forms that
-- the services read), configuration and database sessions (app/core), jobs, the web socket and
-- vision, the pages' reads of devices and areas, the float conversions of app/tcp/byte_process.py,
-- the user service, clear_all_data, edit_area_status on a template with a site that has no code,
-- where the code's queries lose their limit, and edit_storage, which looks a text key up by a number.
pub mod Prelude
pub mod Tcp
pub mod Ids
pub mod Store
pub mod Tasks
pub mod Vehicle
pub mod Sites
pub mod Devices
pub mod UserTasks
pub mod Learned
pub mod Examples
