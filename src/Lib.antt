-- ===== src/Lib.antt =====
-- A distributed key-value store: nodes that place keys on a hash ring, replicate them to the owners,
-- elect a leader, and ask the leader for locks, whose waits it searches for deadlocks.
--
-- Parts, and how they interact:
--   partition/consistent_hash.go    Ring      the hash ring: nodes at the hashes of their virtual
--                                             nodes, and the search clockwise from a key's hash
--   partition/partition_manager.go  Manager   a ring, a replication factor and a switch; the owners
--                                             of a key
--   deadlock/dag.go                 Deadlock  the leader's locks, the graph of who waits for whom,
--                                             the search for a cycle and the abort of a node
--   node/node.go                    Node      a node's state, its Lamport clock, its leader, its view
--                                             of the cluster
--   node/rpc_handlers.go            Node/Storage    Put, Get, Delete and their calls to other nodes
--                                   Node/Handlers   election, mutual exclusion, status, partitions
--                                   Node/Dag        the locks, on the manager of Deadlock
--   mutex/ricart_agrawala.go        Mutex     the mutual exclusion of the nodes, and MutexPut, the
--                                             handler that runs in it
--                                   Mutex/Protocol  the nodes interleaved, step by step
--   election/bully.go               Election  the election of a leader and the monitor of the leader
--   main.go                         Server    a server process, from its arguments to its end, and
--                                             the cluster of several of them
--   client/client.go                Client    the commands of the client, which call the handlers
--                                   Client/DeadlockTest  the command deadlock-test
--                                   Client/Prompt  the loop that reads the commands
--   node/rpc_handlers.go            Replicas  histories of clients' calls at all nodes of a cluster,
--                                             against one map
-- A node holds a partition manager and, if it is set, a lock manager; its handlers call them. The
-- mutual exclusion and the election of a node call the handlers of the others (Node/Rpc).
--
-- A Go struct is a record with the same fields, and a method is a function of the same name in
-- snake_case, from the arguments and the receiver to the new receiver and the results. A loop is a
-- function by recursion on its rounds or on the list that it visits. A panic (an index out of range,
-- a negative capacity) is `none`.
--
-- Prelude has the integers, the tests and the texts; GoMap has Go's maps as association lists; GoSort
-- has sort.Ints and sort.Search, and their theorems. Go does not fix the order in which a `range`
-- visits a map: what depends on it takes the order as an argument, which theorems take to be some
-- permutation of the keys. crypto/md5, strconv.Atoi, os.ReadFile, os.WriteFile, json.Unmarshal,
-- rpc.Register, net.Listen, strings.TrimSpace and strings.Fields are arguments, too, about which
-- nothing is assumed, but for a digest to consist of bytes where its hash is computed, for the output
-- file to be written where the theorem says so, and for a line that is not blank to have a word. A
-- `uint64` hash is a number whose shift wraps at 2 ^ 64, and an `int64` clock wraps at the largest
-- `int64`; a Go `int` is an integer. What the handlers and the elections log to the terminal is left
-- out.
--
-- Fuel: the search for a cycle is given one more than the number of nodes with edges, and every call
-- but the deepest marks such a node for the first time. The binary search is given the length of its
-- range, which it halves.
--
-- Each method of the ring, the manager and the lock manager holds a lock for its whole body, so it is
-- one step. In a handler that calls other nodes, those calls are executed between its own steps, and
-- the network says which of them are executed and answered. The goroutines of one call run one after
-- the other, in an order that is an argument, and whether an answer is there before a timeout is an
-- argument, too. In Mutex/Protocol the calls of all nodes are cut into steps, which come in any
-- order: a node may have any number of calls, which share its state, `AreSerial` says that none begins
-- while another of the node runs, and `span` bounds by how much the steps can raise a clock, so that
-- none wraps. In Election the rounds of the monitors of all nodes, their start-up elections and the
-- ends of their monitors are turns, in any order; each runs to its end before the next. In Replicas and Client/Prompt the calls of clients come one after the other;
-- in Replicas the goroutines of a Delete, for which it does not wait, are steps of their own, and
-- `is_quiet` says that no call on a key comes while one is left that deletes it. In Client/Prompt each
-- command has its own network and files, and Delete ends with its goroutines.
--
-- Not modelled: the preview of a file that client/client.go prints (which its min cuts), and the text
-- around the results of its deadlock-test; the sleeps of the monitor and of the start-up; the loop of
-- main.go that accepts connections, each of which serves calls of Node/Rpc; elections of several
-- nodes at the same time, of which each runs to its end before the next turn;
-- deadlock/wait_die.go, which is empty.
pub mod Prelude
pub mod GoMap
pub mod GoSort
pub mod Ring
pub mod Manager
pub mod Deadlock
pub mod Node
pub mod Mutex
pub mod Election
pub mod Replicas
pub mod Server
pub mod Client
