-- ===== src/Lib.antt =====
-- The data server of a shop: buyers and sellers send messages, and the server keeps five text files of
-- comma-separated rows. This library models the server from the message to the new files and the
-- replies.
--
-- Parts, with the files that model them:
--   Base        numbers, texts and lists that all parts share. A C string is its list of bytes, an
--               `int` an integer with a test of its range; an overflow has no result.
--   Libc        strtok, atoi, strcpy, strstr, fgets and sprintf of a number, as the C library documents
--               them. `none` is undefined behaviour: a null pointer, an overrun of an array.
--   Convert     JacobWilson.c, intToCharArray.
--   Tables      readDatabaseIntoArray.h, the rows, and Roden.c, loadClientInfo to loadBillingInfo.
--               Tables/Save is JacobWilson.c, the four write-backs; Tables/RoundTrip what a load
--               reads from a written file.
--   World       Roden.h and dataServer.c: the files, the semaphores with the counters of readers, the
--               list of deleted products and the replies sent. A handler is a function from a World to
--               an Outcome (World/Monad); World/Semaphores has the entry and exit of readers and writers,
--               World/Rows the loops over the rows of an array.
--   Validate    Roden.c, validateID and validateOrderIsBuyers.
--   Catalog     Roden.c, viewProducts, addNewProduct, deleteProduct, modifyQuantity, modifyPrice.
--   Ordering    Roden.c, extractBuyerOrder to findBuyerInClientInfo; Ordering/Complete is
--               completeAnOrder and buyerModifiesOrder.
--   Clients     Roden.c, writeNewClientData; Clients/Edits is clientEditsInfo and what it calls.
--               Their theorems are in Clients/New and Clients/Edits/Names.
--   Views       Roden.c, buyerViewsOrder, buyerViewsInfo, sellerViewsOrders, readOrderDetails;
--               Views/Replies has what they send.
--   Server      Roden.c, extractCommand and executeTaskOnServer; dataServer.c, threadTask.
--               Server/Dispatch is about the choice of the handler, Server/Sessions about two messages
--               that are handled one after the other.
--   Concurrent  Roden.c, the lines with which the threads of the server wait on, count and post the
--               semaphores, one at a time and in any interleaving (Step, Reach). Its children:
--               Concurrent/Commands has the sections of each handler; Concurrent/Handlers and
--               Concurrent/Messages compare them with the handlers' own model,
--               the last for a whole message. Concurrent/Exclusion, Concurrent/Finish and
--               Concurrent/Deadlock are about what the interleavings lead to, the last with the waits of
--               Demos/3_DeadLock_Scenarios.
--   Demos       Demos/4_DeadLock_Fix and Demos/5_All_Fixed: processes in loops,
--               whose readers are counted by a semaphore (Demos/Processes).
--               Demos/Simulation maps them to the machine of Concurrent. Demos/Updates is
--               RaceConditionDemo.c, DeadlockDemo.c and the writers of ReadWriteDemo.c, with the numbers
--               in the files; Demos/Readers is ReadWriteDemo.c.
--   ClientProgram  client.c, the messages it builds; ClientProgram/Session puts it together with the
--               server.
--   Relay       serverIPC.c, as a step relation over its processes, queue, pipe and connection.
--   Tests       runs on concrete inputs, and the theorems at inputs that meet their hypotheses.
--
-- State and operations: each handler of Roden.c is one function with the source's name in lower case
-- and the same order of steps; the source's loops over `table[row]` are the functions of World/Rows.
-- What the source leaves open is an argument: the record Locals holds the contents of the uninitialised
-- local arrays, the junk in the buffer of each write-back, and the value of rand(). The arrays of a
-- run can have any length; an access behind their end is a fault, as behind row 3000 of the source.
-- `result[100]` of a write-back is taken to be zeroed behind its first string, which is what its
-- memset calls rely on. A string has no embedded zero byte, and
-- sprintf of the end of a buffer into the same buffer copies forwards.
--
-- Fuel: intToCharArray takes the number itself as fuel, and a division by ten makes it smaller, so that
-- the loop ends before the fuel does. The loop of validateOrderIsBuyers takes `rounds` from
-- Locals and ends in the outcome `looping` without them, because the source's loop may not end.
--
-- A handler's own model runs while no other handler does: a wait on a semaphore of value zero is the
-- outcome `blocked`. In Concurrent a thread is the list of its sections, and what is done with a file
-- inside a section is not repeated there. All lines take effect in one order that all threads see. A
-- thread that waits for semaphores waits in no order: some thread that can move does. In Demos the
-- `sem_getvalue` of a counter is one line with the test of its value, and `numReader++` of
-- ReadWriteDemo.c is one line; the fields of its command that a process does not set are arguments.
--
-- Not modelled: the sockets (createSocket to writeSocket, main's accept loop, and their like in
-- client.c and serverIPC.c), the menus of client.c, and misc/. Open file descriptors are not counted. In
-- Relay every call of the system succeeds but for an `mq_send` of a message that is too long, and a reply
-- is never read in parts. Of Demos/, the dsModel programs of 2_Race_Fix, what the
-- other dsModel and dl programs write into their files, sem_unlink, a program that is ended inside a
-- section, and the versions that stand in comments.
pub mod Base
pub mod Libc
pub mod Convert
pub mod Tables
pub mod World
pub mod Validate
pub mod Catalog
pub mod Ordering
pub mod Clients
pub mod Views
pub mod Server
pub mod Concurrent
pub mod Demos
pub mod ClientProgram
pub mod Relay
mod Tests
