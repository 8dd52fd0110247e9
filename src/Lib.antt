-- ===== src/Lib.antt =====
-- A verification library of the ClickHouse client of this repository, a PHP extension over the
-- clickhouse-cpp library and the TrueAsync reactor.
--
-- The program's parts and the files that model them:
--
-- Errors.antt: ch_exceptions.h, ch_exceptions.cpp and ch_exception_poisons_connection of
-- ch_client.cpp. A C++ exception is a record with its kind; a call that may throw is an Outcome.
-- EG(exception), the PHP exception that is pending, is an argument and a result of each operation.
--
-- Connection.antt: the wrapper ch_client with its broken flag, and ch_pool_before_release of
-- clickhouse_async.cpp, the callback by which the pool asks for that flag.
--
-- Stream.antt: what the client library answers while a query runs. It is input: a finite sequence
-- of blocks that ends, fails or is used up. A result pulls nothing more after a call that fails;
-- what the server may still have sent on the connection then is not in the model.
--
-- Result.antt: ch_result of ch_client.cpp. ch_result_start is start and prime, ch_result_next is
-- next, pull and emit, ch_result_free is free. The state holds the connections that were given back
-- to the pool.
--
-- ResultObject.antt: the Result class of clickhouse_async.cpp: fetch, fetchAll, fetchOne,
-- affectedRows, summary and the iterator methods. foreach stands for the loop of the PHP engine
-- over these methods.
--
-- Insert.antt: ch_build_insert_statement and ch_send_block of ch_client.cpp. The calls of the
-- client library are a list, and its answers are a parameter (Library), which may depend on all
-- calls before.
--
-- Batch.antt and BatchObject.antt: ch_batch of ch_client.cpp, and the Batch class of
-- clickhouse_async.cpp over it.
--
-- Client.antt: query, insert and insertBatch of the Client class of clickhouse_async.cpp. A
-- connection that the pool hands out goes to a result or a batch, which gives it back later, or to
-- an insert.
--
-- Lifetime.antt: the objects of PHP, their references to the Client, and the pool that the Client
-- owns, with ch_pool_ensure, ch_pool_acquire, getPool and the functions that free the objects.
-- System is a Client with all its objects, and Step is what PHP code can do with them. The events
-- of the pool are the calls that the extension makes of it, not those that PHP code makes by the
-- wrapper of getPool.
--
-- Config.antt: the constructor of the Client class and ch_parse_host_port of clickhouse_async.cpp;
-- Config.Strings has the strings that the constructor allocates and the part of
-- ch_client_object_free that frees them.
--
-- Pool.antt: the choice of hosts in ch_pool_factory of clickhouse_async.cpp.
--
-- Connect.antt: ch_client_connect of ch_client.cpp, the config that ch_pool_factory fills for it,
-- and the socket factory and the TLS socket of ch_transport.cpp.
--
-- Query.antt: ch_param_value and ch_apply_params_settings of ch_client.cpp, the parameters and
-- settings of a query.
--
-- Transport.antt: the read and write loops of ch_transport.cpp, over lists of the answers of the
-- system; its child Await has ch_await_socket, Driven has the loops over recv and send together
-- with the waits of ch_await_socket, and Socket has AsyncSocket and the streams of the two kinds of
-- socket.
--
-- Php.antt and Column.antt: PHP values, and the columns of the client library as an interface
-- (Columns). Column.Append is ch_append_value and Column.Read is ch_column_value_to_zval of
-- ch_client.cpp. Column.Block has the loops of ch_send_block with the cache of Map templates, which
-- Insert.antt has for any conversion of a cell; Column.RoundTrip, with Column.Arrays and
-- Column.Maps, is about reading what was written, and Column.Table, Column.Inserted and
-- Column.Fetched follow the rows of an insert into the result of a query; Batch.Blocks,
-- Column.Flushes and Column.Batched do so for the flushes of a batch. Column.Flush has
-- ch_batch_flush with the cache of Map templates that each flush shares among its cells.
-- Column.Send has ch_send_block with that cache, beside that of Insert.antt with append_cell, which
-- appends with an empty cache.
--
-- Codec.antt: UUID, Decimal and DateTime64 values of ch_client.cpp.
--
-- Module.antt: PHP_MINIT_FUNCTION of clickhouse_async.cpp and the functions of
-- clickhouse_async_arginfo.h that register the classes; Module.Catching says which exceptions a
-- catch of PHP code catches.
--
-- Base.antt: lists, integers, texts and Boolean tests that the others share.
--
-- Each component has child modules that prove its properties, and an Examples module with tests.
--
-- Fuel: fetchAll and foreach are loops over ch_result_next and run on fuel; any fuel above the
-- number of rows that are left is enough, and the theorems about them prove that. Hexadecimal
-- printing runs on 16 rounds, enough for 64 bits. All other loops are structural. Sums of
-- statistics wrap at 2 ^ 64, the round-robin counter at 2 ^ 32; DateTime64 ticks are integers
-- without a bound, where the source has int64_t; the theorems of Codec.DateTime64.Bounds are about
-- its range.
--
-- Parameters: in Result.antt the conversion of one cell to a PHP value (cell), and in Insert.antt
-- that of a PHP value to a cell (append_value), are parameters of any kind of column; Column.antt
-- has the conversions of the program. operator<< of a 128-bit integer is show, and the conversions
-- of the PHP engine are the record Engine. Doubles are bit patterns. What is documented of the
-- columns of the client library stands in the records CountsRows, KeepsRows, KeepsCells, KeepsTypes
-- and MakesMaps of Column, which Documented has together; KeepsTypes has with them which columns
-- keep their Map types alive until an insert ends (lives): of two such types that have one address
-- it is the same type.
--
-- Not modelled: the pool and the reactor of the engine, which are not part of the repository and
-- whose answers are arguments; the memory that destructors other than that of Client free; the
-- tables of methods and arguments that describe the classes to the engine; and readings of the
-- clock.
pub mod Base
pub mod Errors
pub mod Php
pub mod Connection
pub mod Stream
pub mod Result
pub mod ResultObject
pub mod Insert
pub mod Batch
pub mod BatchObject
pub mod Client
pub mod Lifetime
pub mod Pool
pub mod Config
pub mod Transport
pub mod Connect
pub mod Query
pub mod Column
pub mod Codec
pub mod Module
