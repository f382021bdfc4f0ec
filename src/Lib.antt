-- ===== src/Lib.antt =====
-- modbusd: a daemon that takes Modbus TCP requests as JSON text over ZeroMQ, serves them with
-- libmodbus, and publishes the responses.
--
-- The program's parts and the files that model them:
--   modbusd.h, mbtcp_key_s and the code that fills it     Key, Key/Layout
--   the global variables and the heap of handles          Daemon, Daemon/*
--   json.c and json.h                                     Json, Json/Fields, Json/Header
--   modbusd.c, the responses                              Response, Response/Readback
--   modbusd.c, the table of handles and the connections   Handle, Handle/*
--   modbusd.c, the requests by function code              Request, Request/*
--   modbusd.c, the commands                               Command, Command/*
--   modbusd.c and main.c, the calls of libmodbus          Protocol, Protocol/*
--   modbusd.h, the interface of modbusd.c                 Api, Api/*
--   main.c, configuration, dispatch and loop              Main, Main/*
--   the comments of the static functions                  Static, Static/*
--   json/cJSON.c, the arrays of unsigned numbers          Node, Node/*
--   log.h, the logging macros                             Log, Log/Lines
-- A definition has the name of the C function that it models. A part of a function that has a
-- definition of its own says which part. `Prelude` has the lists, strings and integers.
--
-- The parts interact as in the program. `Main.serve` takes the messages one by one, `handle_message`
-- parses one and reads its number, `tcp_response` chooses the command, `mbtcp_cmd_hanlder` finds or
-- makes the handle of the request's endpoint, connects it if needed, sets the slave and runs the
-- function code's handler, which calls libmodbus and builds the response; `send_modbus_zmq_resp`
-- appends the two frames to the published ones.
--
-- Interfaces. `Modbusd` has the prototypes of modbusd.h and `IsModbusd` what their comments promise, as
-- equations; `modbusd_c` is modbusd.c as an implementation. main.c is modelled for every implementation,
-- and what its loop keeps and publishes is derived from two weaker records, `KeepsRegistry` and
-- `Replies`. In the same way `JsonHeader` has the prototypes of json.h, and `Static` has the comments of
-- the static functions, each as a contract of a function with
-- that prototype. `Handle/Pool` is the abstract view of the table of handles: which endpoints are
-- open, whether each is connected, and on which context.
--
-- The abstract daemon (`Main/Abstract`) has as its state this view, the timeout for new handles and the
-- published messages. It is a step relation with one step for each kind of receive: nothing, the mode
-- rtu, an unknown mode, an unknown command, the command "timeout", and a request to an endpoint. The
-- properties of runs are proved of the step relation, by induction, and inherited by the loop.
--
-- The calls of libmodbus. `Env/Ledger` is what an observer of the library sees: the sequence of the calls
-- on contexts, with their results. `Protocol` is the order in which libmodbus wants them, a family of
-- sequences with one constructor for each way to go on, and the state of a context is read off the
-- sequence. `Env/Recorder` puts such a ledger beside any libraries.
--
-- Reasoning. A `Plain` property of actions is one that a sequence inherits from its parts, a `Closed` one
-- has every call of a library, too; the files `Holds` of a part, and `Main/Entry` for a whole run, derive
-- such a property of the part's functions. `Moves` relates the states before and after an action (the
-- registry, one handle, the timeout), `Blind` says that an action does not look at
-- what is published, and `Between` has a condition before and one after.
--
-- State. `Daemon` has the global variables of main.c and modbusd.c, the handles, the published
-- messages and the state of the libraries. A handle's address is its position in the list of handles,
-- which is never shortened, since the program frees no handle; writing to a handle through its
-- address is seen by every holder of the address. A function is a state passing function (`M`) that
-- returns or stops. It stops, with the reason as a value, where the C program has undefined behaviour
-- (a NULL pointer, a write beyond an array, an array of no size), where a library asserts, and at
-- `exit`.
--
-- Libraries. libmodbus, uthash, cJSON, czmq and the C library are the fields of the record `Env`, over
-- a state `World` of their own. What the program relies on is in `Env/Laws`
-- (for the files in `Main/Restart`), and a theorem that needs it says so. `Tests/Toy` has libraries for
-- which all the laws hold, and the other files of `Tests` apply the theorems to them.
--
-- Integers. C's int is `ℤ`; cJSON gives values within 32 bits. The conversions to uint8_t, uint16_t,
-- uint32_t and size_t are remainders. The machine is LP64: size_t has 64 bits and a handle 168 bytes.
-- Strings are lists of bytes without their terminator.
--
-- Loops. The main loop is a recursion over the list of what zmsg_recv returns before the interrupt,
-- NULL included, so every run of the loop is a finite list. The loop over the items of a request runs
-- for the number of rounds that cJSON_GetArraySize gives, and the one over the numbers of an array for
-- the number that the caller gives. No other loop is modelled by a bound.
--
-- The additions to cJSON ("taka add" in json/cJSON.c and json/cJSON.h) are modelled on nodes in memory:
-- a heap is the list of its nodes and a pointer a position in it. The read handlers call the two array
-- functions; there, as in the rest of the model, a cJSON object is a value of the library.
--
-- Not modelled: the calls of the logging macros inside the other functions, which change nothing that
-- these read (log.h has its own model), with the assumption that they and free leave errno alone; the
-- release of memory; cJSON's own allocations, which are assumed to succeed; the failure of
-- zsocket_new for the subscriber; the version string of main.h; uthash.h, json/cJSON_Utils.c and, apart
-- from the additions, json/cJSON.c and json/cJSON.h, which are copies of other projects; the tests.
pub mod Prelude
pub mod Env
pub mod Key
pub mod Daemon
pub mod Api
pub mod Json
pub mod Node
pub mod Response
pub mod Handle
pub mod Protocol
pub mod Request
pub mod Command
pub mod Main
pub mod Static
pub mod Log
pub mod Tests
